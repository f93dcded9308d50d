-- ===== src/Queue/Tests.antt =====
-- equeue.c: runs on small rings, and the theorems at them.
use libeasy.Prelude.{
  ◌*◌, ◌≡◌, refl, inr, if◌then◌else◌, true, false, none, some, List, [], ◌∷◌, arith, replicate,
  length-replicate,
}
use libeasy.Prelude.Int.{negsuc}
use libeasy.Queue.{Queue, Alloc, null, full, create, push, is_empty, element_count, pop, head}
use libeasy.Queue.Fifo
use libeasy.Queue.Fifo.{Call, Reply, pushed, popped, emptiness, counted}
use libeasy.Queue.Refine.{Holds, Grants, push-Holds}
use libeasy.Queue.Run.{step, AllGrant, run, run_refines, calls}
use libeasy.Queue.Failure.{create_fails, push_failed}

abbrev ample : Alloc
ample n = some (replicate n 7)

abbrev exhausted : Alloc
exhausted n = none

ample-Grants : Grants ample
ample-Grants n = (replicate n 7, refl, length-replicate n 7)

abbrev fresh : Queue
fresh = record { q = some (7 ∷ 7 ∷ []); front = 0; rear = 0; size = 2 }

-- 4 then 5, round the end of the block
abbrev wrapped : Queue
wrapped = record { q = some (5 ∷ 9 ∷ 4 ∷ []); front = 1; rear = 0; size = 3 }

fresh-Holds : Holds fresh []
fresh-Holds = record {
  block = 7 ∷ 7 ∷ [];
  held = record {
    block = refl;
    long = refl;
    two = omega arith;
    front_in = omega arith;
    rear_in = omega arith;
  };
  listed = refl;
}

wrapped-Holds : Holds wrapped (4 ∷ 5 ∷ [])
wrapped-Holds = record {
  block = 5 ∷ 9 ∷ 4 ∷ [];
  held = record {
    block = refl;
    long = refl;
    two = omega arith;
    front_in = omega arith;
    rear_in = omega arith;
  };
  listed = refl;
}

abbrev script : List (Alloc × Call)
script =
    (ample, Call.push 1)
    ∷ (ample, Call.push 2)
    ∷ (ample, Call.element_count)
    ∷ (ample, Call.pop)
    ∷ (ample, Call.pop)
    ∷ (ample, Call.pop)
    ∷ (ample, Call.is_empty)
    ∷ []

script-AllGrant : AllGrant script
script-AllGrant = let g = ample-Grants in (g, (g, (g, (g, (g, (g, (g, tt)))))))

run-fresh :
    run fresh script
    ≡ some (
        pushed true
        ∷ pushed true
        ∷ counted 2
        ∷ popped 1
        ∷ popped 2
        ∷ popped null
        ∷ emptiness true
        ∷ [])
unfolding run step push pop is_empty element_count
run-fresh = refl

push-wrapped :
    push ample wrapped 6
    ≡ some (true, record { q = some (5 ∷ 9 ∷ 4 ∷ 5 ∷ 6 ∷ 7 ∷ []); front = 1; rear = 4; size = 6 })
unfolding push
push-wrapped = refl

run_refines_example : run fresh script ≡ some (Fifo.run [] (calls script))
run_refines_example = run_refines script script-AllGrant fresh-Holds (omega arith) (omega arith)

push-Holds_example :
    (s' : Queue) × (push ample wrapped 6 ≡ some (true, s'))
    × Holds s' (4 ∷ 5 ∷ 6 ∷ [])
    × (s'.size ≡ (if full wrapped then wrapped.size * 2 else wrapped.size))
push-Holds_example = push-Holds 6 ample-Grants wrapped-Holds (omega arith)

create_fails_example : create true ample (negsuc 3) ≡ none
create_fails_example = create_fails true ample (negsuc 3) (inr (inr (omega arith)))

push_failed_example :
    (s' : Queue) × (push exhausted wrapped 6 ≡ some (false, s'))
    × (s'.size ≡ 3 * 2)
    × (pop s' ≡ none)
    × (head s' ≡ none)
push_failed_example = push_failed exhausted 6 wrapped-Holds refl (omega arith) refl
