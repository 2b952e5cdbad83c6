-- ===== src/Recover/Extension/Laws.antt =====
-- The guess is the first signature that the file begins with.
use Prim.Native.String.{String}
use cs.Prelude.{ℕ, Bool, true, false, ◌&&◌, List, [], ◌∷◌, ◌==◌, if◌then◌else◌, take}
use cs.Recover.Extension.{
  sig_windows_executable, sig_jpeg, sig_jpg, sig_tif, sig_tiff, sig_pdf, sig_postscript1, sig_gif1,
  sig_gif2, sig_postscript2, sig_png,
}

-- `sig` is the beginning of the list.
unfoldable pub starts_with : List ℕ → List ℕ → Bool
starts_with [] xs = true
starts_with (a ∷ sig) [] = false
starts_with (a ∷ sig) (b ∷ xs) = (a == b) && starts_with sig xs

-- The signatures as far as they are compared, in the order of the tests.
abbrev pub signatures : List (List ℕ × String)
signatures =
    (sig_windows_executable, ".exe")
    ∷ (sig_jpeg, ".jpeg")
    ∷ (take 4 sig_jpg, ".jpg")
    ∷ (sig_tiff, ".tiff")
    ∷ (take 4 sig_postscript1, ".ps")
    ∷ (sig_pdf, ".pdf")
    ∷ (sig_tif, ".tif")
    ∷ (sig_gif1, ".gif")
    ∷ (sig_gif2, ".gif")
    ∷ (sig_postscript2, ".ps")
    ∷ (sig_png, ".png")
    ∷ []

-- The extension of the first signature that fits, or `.txt`.
unfoldable pub first_match : List (List ℕ × String) → List ℕ → String
first_match [] xs = ".txt"
first_match ((sig, ext) ∷ rest) xs = if starts_with sig xs then ext else first_match rest xs
