-- ===== src/Tests/Sound.antt =====
-- The sound driver of the abstract machine over a buffer of eight bytes.
use ysyxworkbench.Prelude.{
  ℕ, ◌≡◌, refl, inl, true, false, some, ok, ◌==◌, if◌then◌else◌, List, [], ◌∷◌, ◌++◌, arith,
}
use ysyxworkbench.Memory.{store, host_read, host_write}
use ysyxworkbench.Device.Ports.{get_word, set_word, reg_count, audio_play_callback, play_from}
use ysyxworkbench.Am.Audio.{Sound, am_audio_play, has_room, in_reg, out_reg, put_bytes, play_bytes}
use ysyxworkbench.Am.Audio.Buffer.{Buffer}
use ysyxworkbench.Am.Audio.Fifo.{IsSound, Turns, begin, play, callback, Turns-fifo}
use ysyxworkbench.Am.Audio.Race.{interrupted, interrupted-count}

-- The registers are at 0, the buffer is at 24.
abbrev silent_space : ℕ → ℕ
silent_space i = if i == 12 then 8 else 0

abbrev sound : (ℕ → ℕ) → ℕ → ℕ → Sound
sound io_space head tail = record {
  io = record {
    io_space = io_space;
    p_space = 0;
    dev = record { audio_base = 0; sbuf = 24; head = head };
    skip = record { is_skip_ref = false; skip_dut_nr_inst = 0 };
  };
  tail = tail;
}

abbrev silent : Sound
silent = sound silent_space 0 0

silent-IsSound : IsSound 8 silent []
unfolding get_word host_read
silent-IsSound = record {
  buffer = record {
    apart = omega arith;
    fits = omega arith;
    small = omega arith;
    head_inside = omega arith;
    tail_inside = omega arith;
    room = omega arith;
    placed = inl refl;
    held = tt;
  };
  size_reg = refl;
  count_reg = refl;
}

abbrev with_count : (ℕ → ℕ) → ℕ → ℕ → ℕ
with_count array n = store (store (store (store array 20 n) 21 0) 22 0) 23 0

abbrev three_space : ℕ → ℕ
three_space = with_count (store (store (store silent_space 24 1) 25 2) 26 3) 3

-- After three bytes, and after the callback has taken two of them.
abbrev three : Sound
three = sound three_space 0 3

abbrev one_left : Sound
one_left = sound (with_count three_space 1) 2 3

play_runs : am_audio_play (1 ∷ 2 ∷ 3 ∷ []) silent ≡ ok (some three)
unfolding am_audio_play has_room play_bytes put_bytes in_reg out_reg get_word set_word host_read
    host_write
play_runs = refl

callback_runs : audio_play_callback 2 three.io ≡ ok (1 ∷ 2 ∷ [], one_left.io)
unfolding audio_play_callback play_from get_word set_word host_read host_write
callback_runs = refl

count_runs : get_word 0 reg_count three.io ≡ ok 3
unfolding get_word host_read
count_runs = refl

turns : Turns silent (1 ∷ 2 ∷ 3 ∷ []) (1 ∷ 2 ∷ []) one_left
turns =
    callback (1 ∷ 2 ∷ 3 ∷ []) [] (1 ∷ 2 ∷ []) 2 3 three one_left.io
      (play [] [] (1 ∷ 2 ∷ 3 ∷ []) silent three begin
        (omega arith, (omega arith, (omega arith, tt))) play_runs)
      count_runs callback_runs

Turns-fifo_example : (q : List ℕ) × IsSound 8 one_left q × (1 ∷ 2 ∷ 3 ∷ [] ≡ (1 ∷ 2 ∷ []) ++ q)
Turns-fifo_example = Turns-fifo 8 silent one_left (1 ∷ 2 ∷ 3 ∷ []) (1 ∷ 2 ∷ []) silent-IsSound turns

three-IsSound : IsSound 8 three (1 ∷ 2 ∷ 3 ∷ [])
unfolding get_word host_read
three-IsSound = record {
  buffer = record {
    apart = omega arith;
    fits = omega arith;
    small = omega arith;
    head_inside = omega arith;
    tail_inside = omega arith;
    room = omega arith;
    placed = inl refl;
    held = (refl, (refl, (refl, tt)));
  };
  size_reg = refl;
  count_reg = refl;
}

more_room_runs : has_room 2 three ≡ ok true
unfolding has_room in_reg get_word host_read
more_room_runs = refl

-- The callback takes two of the three bytes, and the count is then five, for three bytes.
interrupted-count_example :
    (s' : Sound) × (interrupted (4 ∷ 5 ∷ []) 2 three ≡ ok (1 ∷ 2 ∷ [], s'))
    × Buffer 8 s' (3 ∷ 4 ∷ 5 ∷ [])
    × (get_word s'.io.dev.audio_base reg_count s'.io ≡ ok 5)
interrupted-count_example =
    interrupted-count 8 2 (4 ∷ 5 ∷ []) three (1 ∷ 2 ∷ 3 ∷ []) three-IsSound
      (omega arith, (omega arith, tt)) more_room_runs
