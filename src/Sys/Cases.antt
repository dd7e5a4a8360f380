-- ===== src/Sys/Cases.antt =====
-- src/tsys.c: what holds of the end of every call holds of the end of `syscall_handler`.
use trait_os.Base.{ℕ, true, ◌%◌, ◌≡◌, ◌==◌, if◌then◌else◌, if_ind, ==_iff}
use trait_os.Task.Table.{Layout}
use trait_os.Task.Ops.{self, yield_cpu, exit}
use trait_os.Sys.State.{max_obj, Kernel, Registers, failure, Step, returns, ended}
use trait_os.Sys.Calls.{
  first_free, mb_init, mutex_init_at, sys_write, sys_sleep, sys_mb_send, sys_mb_recv,
  sys_mutex_lock, sys_mutex_unlock, sys_read, dispatch, handler,
}

-- The calls that are not only a read of a number, each with the number it answers to.
pub record Calls {ℓ} (P : Step → Type ℓ) (l : Layout) (r : Registers) (k : Kernel) : Type ℓ where
  pub quiet : (v : ℕ) → P (returns v k)
  pub on_write : r.rax ≡ 1 → P (sys_write l r k)
  pub on_exit : r.rax ≡ 2 → P (ended (record k { sched = exit l k.sched }))
  pub on_yield : r.rax ≡ 4 → P (returns 0 (record k { sched = yield_cpu l k.sched }))
  pub on_sleep : r.rax ≡ 5 → P (sys_sleep l r k)
  pub on_mb_init : r.rax ≡ 6 → P (mb_init (first_free k.table max_obj 0) k)
  pub on_mb_send : r.rax ≡ 7 → P (sys_mb_send l r k)
  pub on_mb_recv : r.rax ≡ 8 → P (sys_mb_recv l r k)
  pub on_mutex_init : r.rax ≡ 9 → P (mutex_init_at (first_free k.table max_obj 0) k)
  pub on_mutex_lock : r.rax ≡ 10 → P (sys_mutex_lock l r k)
  pub on_mutex_unlock : r.rax ≡ 11 → P (sys_mutex_unlock l r k)
  pub on_read : r.rax ≡ 13 → P (sys_read l r k)

module _ {ℓ} (P : Step → Type ℓ) (l : Layout) (r : Registers) (k : Kernel) (c : Calls P l r k) where
  is_nr : (n : ℕ) → (r.rax == n) ≡ true → r.rax ≡ n
  is_nr n = (==_iff r.rax n).0

  late : P (
      if r.rax == 9
      then mutex_init_at (first_free k.table max_obj 0) k
      else if r.rax == 10
      then sys_mutex_lock l r k
      else if r.rax == 11
      then sys_mutex_unlock l r k
      else if r.rax == 12
      then returns k.ticks k
      else if r.rax == 13
      then sys_read l r k
      else returns failure k)
  late =
      if_ind P (r.rax == 9) (λ e. c.on_mutex_init (is_nr 9 e))
        λ _.
          if_ind P (r.rax == 10) (λ e. c.on_mutex_lock (is_nr 10 e))
            λ _.
              if_ind P (r.rax == 11) (λ e. c.on_mutex_unlock (is_nr 11 e))
                λ _.
                  if_ind P (r.rax == 12) (λ e. c.quiet k.ticks)
                    λ _. if_ind P (r.rax == 13) (λ e. c.on_read (is_nr 13 e)) λ _. c.quiet failure

  pub handler_cases : P (handler l r k)
  unfolding handler dispatch
  handler_cases =
      if_ind P (r.cs % 4 == 0) (λ _. c.quiet failure)
        λ _.
          if_ind P (r.rax == 1) (λ e. c.on_write (is_nr 1 e))
            λ _.
              if_ind P (r.rax == 2) (λ e. c.on_exit (is_nr 2 e))
                λ _.
                  if_ind P (r.rax == 3) (λ e. c.quiet (self k.sched))
                    λ _.
                      if_ind P (r.rax == 4) (λ e. c.on_yield (is_nr 4 e))
                        λ _.
                          if_ind P (r.rax == 5) (λ e. c.on_sleep (is_nr 5 e))
                            λ _.
                              if_ind P (r.rax == 6) (λ e. c.on_mb_init (is_nr 6 e))
                                λ _.
                                  if_ind P (r.rax == 7) (λ e. c.on_mb_send (is_nr 7 e))
                                    λ _.
                                      if_ind P (r.rax == 8) (λ e. c.on_mb_recv (is_nr 8 e))
                                        λ _. late
