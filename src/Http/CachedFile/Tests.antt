-- ===== src/Http/CachedFile/Tests.antt =====
-- Downloads into a cached file, and threads that share it.
use haybarn_httpfs.Base
use haybarn_httpfs.Base.{ℕ, ◌≤◌, ◌≡◌, refl, true, false, List, [], ◌∷◌, arith, take, concat}
use haybarn_httpfs.Http.Types.{ok}
use haybarn_httpfs.Http.CachedFile.{
  CachedFile, empty_file, set_initialized, Download, receive, receive_all,
}
use haybarn_httpfs.Http.CachedFile.Assembly.{receive_all-assembles}
use haybarn_httpfs.Http.CachedFile.Sharing.{
  waiting, holding, downloading, reading, System, set_phase, acquire, look, lock, check, finish,
  Reach, here, next, unshared, initialized_stable,
}

abbrev chunks : List (List ℕ)
chunks = (1 ∷ 2 ∷ []) ∷ (3 ∷ 4 ∷ 5 ∷ []) ∷ (6 ∷ []) ∷ []

abbrev start : Download
start = record { file = empty_file; length = 0 }

abbrev six_bytes : Download
six_bytes = record {
  file = record {
    content = 1 ∷ 2 ∷ 3 ∷ 4 ∷ 5 ∷ 6 ∷ 0 ∷ 0 ∷ [];
    capacity = 8;
    size = 0;
    initialized = false;
    locked = false;
  };
  length = 6;
}

receives_six : receive_all chunks start ≡ ok six_bytes
unfolding receive_all receive empty_file Base.splice
receives_six = refl

receive_all-assembles_example :
    (d : Download) × (receive_all chunks start ≡ ok d)
    × (d.length ≡ Base.length (concat chunks))
    × (d.length ≤ Base.length d.file.content)
    × (take d.length d.file.content ≡ concat chunks)
unfolding concat
receive_all-assembles_example = receive_all-assembles chunks (omega arith)

-- Thread 1 takes the lock and downloads; thread 2 waits.
abbrev one_step : System
one_step = record { file = empty_file; phase = set_phase 1 waiting unshared.phase }

abbrev two_steps : System
two_steps = record { file = acquire empty_file; phase = set_phase 1 holding one_step.phase }

abbrev three_steps : System
three_steps = record two_steps { phase = set_phase 1 downloading two_steps.phase }

abbrev done_file : CachedFile
done_file = record { content = []; capacity = 0; size = 0; initialized = true; locked = false }

abbrev four_steps : System
four_steps = record { file = done_file; phase = set_phase 1 reading three_steps.phase }

Reach-three : Reach unshared three_steps
unfolding empty_file
Reach-three = next (next (next here (look 1 refl)) (lock 1 refl refl)) (check 1 refl refl)

Reach-four : Reach unshared four_steps
unfolding empty_file set_initialized
Reach-four = next Reach-three (finish 1 0 done_file refl refl)

abbrev late : System
late = record four_steps { phase = set_phase 2 reading four_steps.phase }

Reach-late : Reach four_steps late
Reach-late = next here (look 2 refl)

initialized_stable_example :
    (late.file.initialized ≡ true) × (late.file.content ≡ []) × (late.file.size ≡ 0)
initialized_stable_example = initialized_stable Reach-four refl Reach-late
