-- ===== src/Pipe/Examples.antt =====
-- The theorems at a pipe of two bytes with one reader and one writer.
use asterisk.Base.{◌≡◌, refl, arith, true, false, List, [], ◌∷◌}
use asterisk.FifoBuffer.{fifobuffer_get_size}
use asterisk.Pipe.{Pipe, File, blocks, pipe_close, pipe_read_try}
use asterisk.Pipe.Flow.{closes, reads, writes, Call, run, Flowed, run-Flowed}
use asterisk.Pipe.Broken.{read_try-close}

abbrev reader : File
reader = record { flags = 0; thread = 5 }

abbrev writer : File
writer = record { flags = 1; thread = 7 }

abbrev connected : Pipe
connected = record {
  buffer = record {
    bytes = 0 ∷ 0 ∷ [];
    capacity = 2;
    used_bytes = 0;
    read_index = 1;
    write_index = 1;
  };
  readers = 5 ∷ [];
  writers = 7 ∷ [];
  is_broken = false;
}

abbrev calls : List Call
calls =
    writes 1 0 (10 ∷ 20 ∷ 30 ∷ [])
    ∷ reads 0 0 1
    ∷ writes 1 0 (30 ∷ [])
    ∷ closes writer
    ∷ reads 0 0 8
    ∷ reads 0 0 1
    ∷ []

run-Flowed_example : Flowed connected (run connected calls)
run-Flowed_example = run-Flowed calls connected (omega arith) (λ e. cc)

read_try-close_example :
    let (pipe', wakes) = pipe_close connected writer in
    (wakes ≡ []) × (pipe'.writers ≡ []) × (pipe_read_try pipe' 0 0 8 true ≡ blocks (5 ∷ []))
unfolding fifobuffer_get_size
read_try-close_example =
    read_try-close connected 5 [] writer 0 8 refl refl refl refl refl refl (omega arith)
