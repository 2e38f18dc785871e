-- ===== src/Examples/Running.antt =====
-- The theorems about the kernel's process and the shells' files, on small data.
use mihomo_tui.Base.{
  ℕ, ◌+◌, ◌≤◌, String, ◌≡◌, refl, Bool, true, false, Option, some, List, [], ◌∷◌, ◌++◌, length, All,
  arith,
}
use mihomo_tui.Base.Result.{ok}
use mihomo_tui.Kernel.Output.{write_all, write_all_lem}
use mihomo_tui.Kernel.Process.{
  Process, StartCalls, installed, StopCalls, begin_start, note_exit, clean_up,
}
use mihomo_tui.Kernel.Runs.{
  Run, here, then_step, starts, ends, cleans, IsSafe, Run-IsSafe, clean_up-races,
}
use mihomo_tui.SystemProxy.Lines.{join_lines, split_lines, split_lines-IsLine}
use mihomo_tui.SystemProxy.Strip.{strip_block, block_start, block_end}
use mihomo_tui.SystemProxy.StripLaws.{strip_block_lem, strip_block_twice}

write_all_lem_example :
    (write_all {A = ℕ} 3 [] ((1 ∷ 2 ∷ []) ∷ (3 ∷ 4 ∷ []) ∷ []) ≡ 2 ∷ 3 ∷ 4 ∷ [])
    × (length (write_all {A = ℕ} 3 [] ((1 ∷ 2 ∷ []) ∷ (3 ∷ 4 ∷ []) ∷ [])) ≤ 3)
write_all_lem_example = write_all_lem 3 ((1 ∷ 2 ∷ []) ∷ (3 ∷ 4 ∷ []) ∷ [])

abbrev starting : StartCalls
starting = record {
  finds_binary = true;
  makes_home = true;
  makes_dir = true;
  has_config = true;
  set_up = installed;
  spawned = ok 42;
}

abbrev idle : Process
idle = record { running = false; pid = 0; tun = false; routing = false; cleanups = 0 }

abbrev active : Process
active = record { running = true; pid = 42; tun = true; routing = true; cleanups = 0 }

idle-IsSafe : IsSafe idle
idle-IsSafe = record { clean = λ h. refl; routed = λ h. cc }

start_and_end : Run idle (clean_up true (note_exit active))
unfolding begin_start
start_and_end =
    then_step (then_step (then_step here (starts starting true refl refl)) (ends refl refl))
      (cleans true refl)

Run-IsSafe_example : IsSafe (clean_up true (note_exit active))
Run-IsSafe_example = Run-IsSafe start_and_end idle-IsSafe

clean_up-races_example :
    let q = clean_up true (begin_start starting true (note_exit active)).0 in
    (q.running ≡ true) × (q.tun ≡ true) × (q.routing ≡ false)
clean_up-races_example = clean_up-races starting active 42 refl refl refl refl refl refl refl refl

abbrev stopping : StopCalls
stopping = record {
  terms = true;
  ends_in_time = true;
  kills = true;
  reaped_in_time = true;
  restores = true;
}

strip_block_lem_example :
    strip_block (join_lines ("a" ∷ "" ∷ block_start ∷ "export x=1" ∷ block_end ∷ "b" ∷ []))
    ≡ join_lines ("a" ∷ "b" ∷ [])
unfolding mihomo_tui.Base.trim_space split_lines
strip_block_lem_example =
    strip_block_lem ("a" ∷ "" ∷ []) ("export x=1" ∷ []) ("b" ∷ []) block_start block_end
      (refl, (refl, tt)) refl (refl, tt) refl (refl, tt)
      (split_lines-IsLine
        "a\n\n# >>> mihomo-tui system proxy >>>\nexport x=1\n# <<< mihomo-tui system proxy <<<\nb")

strip_block_twice_example : strip_block (strip_block block_start) ≡ strip_block block_start
strip_block_twice_example = strip_block_twice block_start
