-- ===== src/FifoBuffer/Examples.antt =====
-- The theorems at a buffer whose bytes go round the end of the array, and runs of the code.
use asterisk.Base.{◌≡◌, refl, arith, List, [], ◌∷◌, pos, to_int32}
use asterisk.FifoBuffer.{
  FifoBuffer, fifobuffer_create, fifobuffer_enqueue, fifobuffer_dequeue, fifobuffer_get_size,
}
use asterisk.FifoBuffer.Valid.{IsValid}
use asterisk.FifoBuffer.Script.{Call, put, get, size, run, queue_run, run-queue_run}

-- 8, 9, 7 in four cells, starting at the third
abbrev wrapped : FifoBuffer
wrapped = record {
  bytes = 7 ∷ 0 ∷ 8 ∷ 9 ∷ [];
  capacity = 4;
  used_bytes = 3;
  read_index = 2;
  write_index = 1;
}

abbrev fresh : FifoBuffer
fresh = record {
  bytes = 0 ∷ 0 ∷ 0 ∷ [];
  capacity = 3;
  used_bytes = 0;
  read_index = 0;
  write_index = 0;
}

wrapped-IsValid : IsValid wrapped
wrapped-IsValid = omega arith

fresh-IsValid : IsValid fresh
fresh-IsValid = omega arith

created : fifobuffer_create 3 ≡ fresh
unfolding fifobuffer_create
created = refl

enqueue_when_nearly_full : (fifobuffer_enqueue wrapped (5 ∷ 6 ∷ [])).0 ≡ pos 1
unfolding fifobuffer_enqueue to_int32
enqueue_when_nearly_full = refl

abbrev calls : List Call
calls = put (1 ∷ 2 ∷ []) ∷ get 2 ∷ size ∷ get 5 ∷ get 1 ∷ []

run-wrapped :
    run wrapped calls
    ≡ (pos 1, []) ∷ (pos 2, 8 ∷ 9 ∷ []) ∷ (pos 2, []) ∷ (pos 2, 7 ∷ 1 ∷ []) ∷ (pos 0, []) ∷ []
unfolding run fifobuffer_enqueue fifobuffer_dequeue fifobuffer_get_size to_int32
run-wrapped = refl

run-queue_run_example : run wrapped calls ≡ queue_run 4 (8 ∷ 9 ∷ 7 ∷ []) calls
run-queue_run_example = run-queue_run calls {f = wrapped} wrapped-IsValid
