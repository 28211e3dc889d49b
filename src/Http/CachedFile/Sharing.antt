-- ===== src/Http/CachedFile/Sharing.antt =====
-- One cached file and the handles of many threads, at most one for each thread: the lock, the
-- `initialized` flag that is read before the lock is taken, and the download of FullDownload.
use haybarn_httpfs.Base.{
  ℕ, ◌≡◌, refl, ◌∙◌, ◌⊎◌, Bool, true, false, List, arith, ◌==◌, if◌then◌else◌,
}
use haybarn_httpfs.Http.Types.{ok}
use haybarn_httpfs.Http.CachedFile.{CachedFile, empty_file, set_initialized, Download, receive}

-- What a thread does with the file. `waiting`: its handle saw the file not initialized and waits for
-- the lock. `holding`: its handle has the lock. `downloading`: it asked Initialized() after that, was
-- told no, and runs the GET request. `reading`: its handle has no lock.
pub data Phase : Type 0 where
  absent waiting holding downloading reading : Phase

pub record System : Type 0 where
  pub file : CachedFile
  pub phase : ℕ → Phase

abbrev pub set_phase : ℕ → Phase → (ℕ → Phase) → ℕ → Phase
set_phase t p phase u = if u == t then p else phase u

abbrev pub release : CachedFile → CachedFile
release f = record f { locked = false }

abbrev pub acquire : CachedFile → CachedFile
acquire f = record f { locked = true }

abbrev pub has_lock : Phase → Bool
has_lock holding = true
has_lock downloading = true
has_lock _ = false

-- The constructor of CachedFileHandle is `look` and, if that says `waiting`, `lock`.
pub data Step (s : System) : System → Type 0 where
  look :
      (t : ℕ)
      → s.phase t ≡ absent
      → Step s (record s {
        phase = set_phase t (if s.file.initialized then reading else waiting) s.phase;
      })
  lock :
      (t : ℕ)
      → s.phase t ≡ waiting
      → s.file.locked ≡ false
      → Step s (record { file = acquire s.file; phase = set_phase t holding s.phase })
  check :
      (t : ℕ)
      → s.phase t ≡ holding
      → s.file.initialized ≡ false
      → Step s (record s { phase = set_phase t downloading s.phase })
  fetch :
      (t : ℕ) (chunk : List ℕ) (length : ℕ) (d : Download)
      → s.phase t ≡ downloading
      → receive chunk (record { file = s.file; length = length }) ≡ ok d
      → Step s (record s { file = d.file })
  finish :
      (t total : ℕ) (f : CachedFile)
      → s.phase t ≡ downloading
      → set_initialized total (has_lock (s.phase t)) s.file ≡ ok f
      → Step s (record { file = f; phase = set_phase t reading s.phase })
  close_locked :
      (t : ℕ)
      → (s.phase t ≡ holding) ⊎ (s.phase t ≡ downloading)
      → Step s (record { file = release s.file; phase = set_phase t absent s.phase })
  close : (t : ℕ) → s.phase t ≡ reading → Step s (record s { phase = set_phase t absent s.phase })

pub data Reach (s : System) : System → Type 0 where
  here : Reach s s
  next : {t u : System} → Reach s t → Step t u → Reach s u

pub record IsExclusive (s : System) : Type 0 where
  pub one_holder : (t u : ℕ) → has_lock (s.phase t) ≡ true → has_lock (s.phase u) ≡ true → t ≡ u
  pub holder_locks : (t : ℕ) → has_lock (s.phase t) ≡ true → s.file.locked ≡ true
  pub still_empty : (t : ℕ) → s.phase t ≡ downloading → s.file.initialized ≡ false

receive-keeps :
    (chunk : List ℕ) (d d' : Download)
    → receive chunk d ≡ ok d'
    → (d'.file.initialized ≡ d.file.initialized) × (d'.file.locked ≡ d.file.locked)
unfolding receive
receive-keeps chunk d d' h = ground arith

Step-IsExclusive : {s u : System} → Step s u → IsExclusive s → IsExclusive u
unfolding set_initialized
Step-IsExclusive (look t p) v = grind arith
Step-IsExclusive (lock t p free) v = grind arith
Step-IsExclusive (check t p e) v = grind arith
Step-IsExclusive {s} (fetch t chunk n d p e) v =
    let (keeps, locks) = receive-keeps chunk (record { file = s.file; length = n }) d e in
    record {
      one_holder = v.one_holder;
      holder_locks = λ a h. locks ∙ v.holder_locks a h;
      still_empty = λ a h. keeps ∙ v.still_empty a h;
    }
Step-IsExclusive (finish t n f p e) v = grind arith
Step-IsExclusive (close_locked t p) v = grind arith
Step-IsExclusive (close t p) v = grind arith

Reach-IsExclusive : {s u : System} → Reach s u → IsExclusive s → IsExclusive u
Reach-IsExclusive here v = v
Reach-IsExclusive (next r st) v = Step-IsExclusive st (Reach-IsExclusive r v)

-- A file before any thread has a handle of it.
abbrev pub unshared : System
unshared = record { file = empty_file; phase = λ t. absent }

unshared-IsExclusive : IsExclusive unshared
unshared-IsExclusive = grind arith

Step-stable :
    {s u : System}
    → Step s u
    → IsExclusive s
    → s.file.initialized ≡ true
    → (u.file.initialized ≡ true) × (u.file.content ≡ s.file.content) × (u.file.size ≡ s.file.size)
Step-stable (look t p) v h = (h, refl, refl)
Step-stable (lock t p free) v h = (h, refl, refl)
Step-stable (check t p e) v h = (h, refl, refl)
Step-stable (fetch t chunk n d p e) v h = cc (v.still_empty t p)
Step-stable (finish t n f p e) v h = cc (v.still_empty t p)
Step-stable (close_locked t p) v h = (h, refl, refl)
Step-stable (close t p) v h = (h, refl, refl)

-- Once the file is initialized in a reachable state, no later step of any thread changes its bytes,
-- its size or the flag: reading it without the lock is safe.
pub initialized_stable :
    {s u : System}
    → Reach unshared s
    → s.file.initialized ≡ true
    → Reach s u
    → (u.file.initialized ≡ true) × (u.file.content ≡ s.file.content) × (u.file.size ≡ s.file.size)
initialized_stable r h here = (h, refl, refl)
initialized_stable r h (next p st) =
    let (a, b, c) = initialized_stable r h p in
    let w = Reach-IsExclusive p (Reach-IsExclusive r unshared-IsExclusive) in
    let (a', b', c') = Step-stable st w a in (a', b' ∙ b, c' ∙ c)
