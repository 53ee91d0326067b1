-- ===== src/Common/Syncs.antt =====
-- common/src/io.cpp: the coroutines that wait for aio_fsync, and the signal that wakes them.
pub mod Waits
pub mod Strands
mod Examples
use ervan.Base.{
  ℕ, ◌≡◌, Bool, true, false, not, ◌||◌, ◌==◌, if◌then◌else◌, List, [], ◌∷◌, Option, none, some,
}

-- A request that aio_fsync has accepted is known by the handle that its coroutine awaits; `waiting`
-- has the handles that nothing has notified. The value of a pending SIGIO is such a handle.
pub record Io : Type 0 where
  pub in_flight : List ℕ
  pub waiting : List ℕ
  pub pending : Option ℕ

abbrev pub idle_io : Io
idle_io = record { in_flight = []; waiting = []; pending = none }

abbrev pub has : ℕ → List ℕ → Bool
has h [] = false
has h (k ∷ ks) = h == k || has h ks

abbrev pub without : ℕ → List ℕ → List ℕ
without h [] = []
without h (k ∷ ks) = let rest = without h ks in if h == k then rest else k ∷ rest

-- sync_file up to its `co_await`, where aio_fsync has yielded `result`: what it returns at once, or
-- the handle is awaited. What it returns behind the `co_await` is 0, whatever aio_fsync came to.
pub sync_file : ℕ → ℕ → Io → Option ℕ × Io
sync_file result handle io =
    if not (result == 0)
    then (some result, io)
    else (none, record io { in_flight = handle ∷ io.in_flight; waiting = handle ∷ io.waiting })

-- handle->notify() goes on with the coroutine.
pub io_signal : ℕ → Io → Io
io_signal handle io = record io { waiting = without handle io.waiting }

-- SIGIO does not queue: while one is pending, another is lost.
abbrev pub raise : Option ℕ → ℕ → Option ℕ
raise none handle = some handle
raise (some pending) handle = some pending

abbrev pub complete : ℕ → Io → Io
complete handle io = record io {
  in_flight = without handle io.in_flight;
  pending = raise io.pending handle;
}

-- A coroutine calls sync_file with a handle of its own, a request comes to its end, or the pending
-- signal is delivered.
pub data Step (io : Io) : Io → Type 0 where
  starts :
      (result handle : ℕ) → has handle io.waiting ≡ false → Step io (sync_file result handle io).1
  completes : (handle : ℕ) → has handle io.in_flight ≡ true → Step io (complete handle io)
  delivers :
      (handle : ℕ)
      → io.pending ≡ some handle
      → Step io (io_signal handle (record io { pending = none }))

pub data Reach (io : Io) : Io → Type 0 where
  here : Reach io io
  next : {s t : Io} → Reach io s → Step s t → Reach io t

-- The same, where a file is synced only while no other coroutine waits.
pub data Alone : Io → Type 0 where
  begin : Alone idle_io
  sync :
      {io : Io}
      → Alone io
      → (result handle : ℕ) → io.waiting ≡ []
      → Alone (sync_file result handle io).1
  finish :
      {io : Io}
      → Alone io
      → (handle : ℕ) → has handle io.in_flight ≡ true
      → Alone (complete handle io)
  wake :
      {io : Io}
      → Alone io
      → (handle : ℕ) → io.pending ≡ some handle
      → Alone (io_signal handle (record io { pending = none }))
