-- ===== src/Recover/Extension.antt =====
-- `guess_file_extension` of Asmt_6/recover.c: the first bytes of a file against known signatures.
pub mod Laws
use Prim.Native.String.{String}
use cs.Prelude.{
  ℕ, zero, suc, ◌+◌, Bool, true, false, not, ◌&&◌, Option, none, some, List, [], ◌∷◌, ltb, ◌==◌,
  if◌then◌else◌, get_or, set,
}

abbrev pub buffer_size : ℕ
buffer_size = 20

abbrev pub sig_windows_executable : List ℕ
sig_windows_executable = 0x4D ∷ 0x5A ∷ []

abbrev pub sig_jpeg : List ℕ
sig_jpeg = 0x49 ∷ 0x46 ∷ 0x0 ∷ []

abbrev pub sig_jpg : List ℕ
sig_jpg = 0xFF ∷ 0xD8 ∷ 0xFF ∷ 0xE0 ∷ 0x00 ∷ 0x00 ∷ 0x4a ∷ 0x46 ∷ []

abbrev pub sig_tif : List ℕ
sig_tif = 0x49 ∷ 0x49 ∷ 0x2A ∷ 0x0 ∷ []

abbrev pub sig_tiff : List ℕ
sig_tiff = 0x4D ∷ 0x4D ∷ 0x0 ∷ 0x2A ∷ []

abbrev pub sig_pdf : List ℕ
sig_pdf = 0x25 ∷ 0x50 ∷ 0x44 ∷ 0x46 ∷ []

abbrev pub sig_postscript1 : List ℕ
sig_postscript1 = 0x25 ∷ 0x21 ∷ 0x50 ∷ 0x53 ∷ 0x2d ∷ 0x41 ∷ 0x64 ∷ 0x6f ∷ []

abbrev pub sig_gif1 : List ℕ
sig_gif1 = 0x47 ∷ 0x49 ∷ 0x46 ∷ 0x38 ∷ 0x37 ∷ 0x61 ∷ []

abbrev pub sig_gif2 : List ℕ
sig_gif2 = 0x47 ∷ 0x49 ∷ 0x46 ∷ 0x38 ∷ 0x39 ∷ 0x61 ∷ []

abbrev pub sig_postscript2 : List ℕ
sig_postscript2 = 0x50 ∷ 0x53 ∷ 0x46 ∷ 0x2D ∷ 0x33 ∷ 0x20 ∷ 0x30 ∷ []

abbrev pub sig_png : List ℕ
sig_png = 0x89 ∷ 0x50 ∷ 0x4E ∷ 0x47 ∷ 0xD ∷ 0xA ∷ 0x1A ∷ 0xA ∷ []

-- The loop of `fread`s of two bytes into `buffer`, at most twelve bytes in all; a last single byte
-- of the file is not taken.
unfoldable pub fill_buffer : List ℕ → ℕ → List ℕ → List ℕ
fill_buffer (a ∷ b ∷ rest) y buffer =
    if ltb y 12 then fill_buffer rest (y + 2) (set (set buffer y a) (y + 1) b) else buffer
fill_buffer _ y buffer = buffer

-- The loop `for (; i < n; i++)` over a signature, with `n - i` rounds left: the value of `check`.
unfoldable pub check_loop : ℕ → ℕ → List ℕ → List ℕ → Bool
check_loop zero i sig buffer = false
check_loop (suc rounds) i sig buffer =
    if not (get_or sig i 0 == get_or buffer i 0) then true else check_loop rounds (suc i) sig buffer

-- The same loop for `sigJPG`, which means to pass over two positions.
unfoldable pub check_jpg_loop : ℕ → ℕ → List ℕ → Bool
check_jpg_loop zero i buffer = false
check_jpg_loop (suc rounds) i buffer =
    if not (get_or sig_jpg i 0 == get_or buffer i 0) && (not (i == 4) && not (i == 5))
    then true
    else check_jpg_loop rounds (suc i) buffer

-- The tests in order. Each looks at as many bytes as its loop says, which may be fewer than the
-- signature has.
unfoldable pub guess_from : List ℕ → String
guess_from buffer =
    if not (check_loop 2 0 sig_windows_executable buffer)
    then ".exe"
    else (if not (check_loop 3 0 sig_jpeg buffer)
        then ".jpeg"
        else (if not (check_jpg_loop 4 0 buffer)
            then ".jpg"
            else (if not (check_loop 4 0 sig_tiff buffer)
                then ".tiff"
                else (if not (check_loop 4 0 sig_postscript1 buffer)
                    then ".ps"
                    else (if not (check_loop 4 0 sig_pdf buffer)
                        then ".pdf"
                        else (if not (check_loop 4 0 sig_tif buffer)
                            then ".tif"
                            else (if not (check_loop 6 0 sig_gif1 buffer)
                                then ".gif"
                                else (if not (check_loop 6 0 sig_gif2 buffer)
                                    then ".gif"
                                    else (if not (check_loop 7 0 sig_postscript2 buffer)
                                        then ".ps"
                                        else (if not (check_loop 8 0 sig_png buffer)
                                            then ".png"
                                            else ".txt"))))))))))

-- `none` is the null pointer: for `source`, and for the result. `stale` is what `buffer` holds
-- before anything is written to it.
unfoldable pub guess_file_extension : List ℕ → Option (List ℕ) → Option String
guess_file_extension stale none = none
guess_file_extension stale (some content) = some (guess_from (fill_buffer content 0 stale))
