-- ===== src/Examples/Linking.antt =====
-- A measurement with one round between CPU 0 and CPU 1, and one whose second CPU is refused.
use proxmox_cpu_affinity.Base.{
  ℕ, ◌*◌, ◌+◌, ◌≤◌, ℤ, pos, mul_int, none, some, Option, ok, err, ◌≡◌, ◌⊎◌, inl, refl,
  if◌then◌else◌,
}
use proxmox_cpu_affinity.Examples.Machine.{whole, list_mask}
use proxmox_cpu_affinity.CpuInfo.Link.{
  Phase, Link, LinkStep, LinkRun, begins, moves, ping_moves, pong_moves, looping, ended, locks,
  fails, gives_up, arrives, passes, backs_out, enters, sees, stores, leaves, lock_to_cpu, IsOver,
  link_result,
}
use proxmox_cpu_affinity.CpuInfo.Link.Phases.{left}
use proxmox_cpu_affinity.CpuInfo.Link.Ending.{LinkRun-ends, LinkRun-result, LinkRun-in_loop}

-- The kernel allows every CPU but 7, and answers with EINVAL for that one.
abbrev lock : ℤ → Option (ℤ × ℕ)
lock = lock_to_cpu list_mask (λ m. if list_mask.is_set m (pos 7) then some 22 else none)

lock_test : lock (pos 7) ≡ some (pos 7, 22)
unfolding lock_to_cpu
lock_test = refl

allowed : (lock (pos 0) ≡ none) × (lock (pos 1) ≡ none)
unfolding lock_to_cpu
allowed = (refl, refl)

abbrev link : ℕ → ℕ → Phase (ℤ × ℕ) → Phase (ℤ × ℕ) → Link (ℤ × ℕ)
link barrier signal p q = record {
  shared = record { barrier = barrier; signal = signal; first_err = none };
  ping = p;
  pong = q;
}

-- Both threads in their loops.
in_loops : LinkRun lock (pos 0) (pos 1) (pos 1) 8 (link 0 0 (looping 1) (looping 1))
in_loops =
    moves
      (moves
        (moves
          (moves
            (moves
              (moves
                (moves (moves begins (ping_moves (locks allowed.0))) (pong_moves (locks allowed.1)))
                (ping_moves arrives))
              (pong_moves arrives))
            (ping_moves (passes refl)))
          (pong_moves (passes refl)))
        (ping_moves (enters refl)))
      (pong_moves (enters refl))

over : LinkRun lock (pos 0) (pos 1) (pos 1) 14 (link 0 0 ended ended)
over =
    moves
      (moves
        (moves
          (moves (moves (moves in_loops (ping_moves (sees 0 refl))) (ping_moves (stores 0)))
            (pong_moves (sees 0 refl)))
          (pong_moves (stores 0)))
        (ping_moves leaves))
      (pong_moves leaves)

LinkRun-ends_example :
    (8 ≤ 4 * 1 + 10)
    × (IsOver (link 0 0 (looping 1) (looping 1))
        ⊎ ((t : Link (ℤ × ℕ)) × LinkStep lock
              (pos 0)
              (pos 1)
              (pos 1)
              (link 0 0 (looping 1) (looping 1))
              t))
LinkRun-ends_example = LinkRun-ends in_loops

both_ended : IsOver (link 0 0 ended ended)
both_ended = (refl, refl)

LinkRun-result_example :
    ((lock (pos 0) ≡ none)
      × (lock (pos 1) ≡ none)
      × ((link 0 0 ended ended).shared.signal ≡ 0)
      × (link_result whole (pos 90) (pos 1) (link 0 0 ended ended)
          ≡ ok (whole.div (whole.of_int (pos 90)) (whole.of_int (mul_int (pos 1) (pos 2))))))
    ⊎ ((e : ℤ × ℕ) × ((lock (pos 0) ≡ some e) ⊎ (lock (pos 1) ≡ some e))
        × (link_result whole (pos 90) (pos 1) (link 0 0 ended ended) ≡ err e))
LinkRun-result_example = LinkRun-result whole (pos 90) over both_ended

LinkRun-in_loop_example :
    (lock (pos 0) ≡ none)
    × (lock (pos 1) ≡ none)
    × (left 1 (link 0 0 (looping 1) (looping 1)).pong
        ≡ left 1 (link 0 0 (looping 1) (looping 1)).ping
          + (link 0 0 (looping 1) (looping 1)).shared.signal)
LinkRun-in_loop_example = LinkRun-in_loop in_loops (inl refl)

-- The second thread is refused while the first waits at the barrier.
refused_run : LinkRun lock (pos 0) (pos 7) (pos 1) 6 (record {
  shared = record { barrier = 0; signal = 0; first_err = some (pos 7, 22) };
  ping = ended;
  pong = ended;
})
refused_run =
    moves
      (moves
        (moves
          (moves (moves (moves begins (ping_moves (locks allowed.0))) (ping_moves arrives))
            (pong_moves (fails (pos 7, 22) lock_test)))
          (pong_moves (gives_up (pos 7, 22))))
        (ping_moves (passes refl)))
      (ping_moves (backs_out (λ h. cc)))
