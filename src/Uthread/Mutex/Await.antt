-- ===== src/Uthread/Mutex/Await.antt =====
-- The loop at the end of `uthread_mutex_lock` of Asmt_4/uthread.c.
use cs.Uthread.Mutex.{Mutex}
