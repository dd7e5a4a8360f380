-- ===== src/Task/Pick/Best.antt =====
-- What the pick returns: of the ready tasks that are not excluded, the first one in round-robin
-- order among those of the highest priority.
use native.Mathlib.Nat.{mod-eq_of_lt, mod-lt, mod-eq-sub-mod}
use native.Mathlib.Decide.{dec_lt}
use mathlib.Core.Path.{subst}
use trait_os.Base.{◌↔◌, ltb→lt, ltb-false→le, ltb, if◌then◌else◌, ◌-◌, Bool}
use trait_os.Base.{ℕ, zero, suc, ◌+◌, ◌-◌, ◌%◌, ◌≤◌, ◌<◌, ◌≡◌, ◌≢◌, refl, ◌∙◌, arith}
use trait_os.Base.{Option, none, some, Bool, true, false, Bool-cases, ltb→lt, ◌⊎◌, inl, inr}
use trait_os.Base.{not, ◌||◌, ltb, if◌then◌else◌}
use trait_os.Task.Pick.{State, ready, is_ready, is_index, Scan, slot, pick_round, pick_loop}
use trait_os.Task.Pick.{pick_index_ex}

-- A task that the pick may return.
abbrev pub Eligible : (ℕ → State) → Option ℕ → ℕ → Type 0
Eligible state exclude j = (state j ≡ ready) × (exclude ≢ some j)

is_index_iff : (j : ℕ) (o : Option ℕ) → (is_index j o ≡ true) ↔ (o ≡ some j)
is_index_iff j o = ground arith

is_ready_iff : (s : State) → (is_ready s ≡ true) ↔ (s ≡ ready)
is_ready_iff s = ground arith

skipped-Eligible :
    (state : ℕ → State) (exclude : Option ℕ) (j : ℕ)
    → (is_index j exclude || not (is_ready (state j))) ≡ true
    → ¬ Eligible state exclude j
skipped-Eligible state exclude j h e = ground (arith, is_index_iff j exclude, e.1)

kept-Eligible :
    (state : ℕ → State) (exclude : Option ℕ) (j : ℕ)
    → (is_index j exclude || not (is_ready (state j))) ≡ false
    → Eligible state exclude j
kept-Eligible state exclude j h = (ground arith, λ e. ground (arith, is_index_iff j exclude))

module _ (current : ℕ) (state : ℕ → State) (prio : ℕ → ℕ) (count : ℕ) (exclude : Option ℕ) where
  abbrev at : ℕ → ℕ
  at i = slot current count i

  abbrev Elig : ℕ → Type 0
  Elig j = Eligible state exclude j

  -- After the rounds below `i` the scan holds task `k`, met in round `d`.
  record Wins (i k d : ℕ) : Type 0 where
    met : d < i
    at_slot : at d ≡ k
    eligible : Elig k
    top : (m : ℕ) → m < i → Elig (at m) → prio (at m) ≤ prio k
    first : (m : ℕ) → m < d → Elig (at m) → prio (at m) < prio k

  data Scanned (i : ℕ) (s : Scan) : Type 0 where
    nothing :
        s ≡ record { best = none; best_prio = none }
        → ((m : ℕ) → m < i → ¬ Elig (at m))
        → Scanned i s
    holds :
        (k d : ℕ)
        → s ≡ record { best = some k; best_prio = some (prio k) }
        → Wins i k d
        → Scanned i s

  -- What holds of every round below `i` and of round `i` holds below `i + 1`.
  below_suc : (P : ℕ → Type 0) (i : ℕ) → ((m : ℕ) → m < i → P m) → P i → (m : ℕ) → m < i + 1 → P m
  below_suc P i h p m lt = elim (dec_lt m i) [
    | yes q ↦ h m q
    | no q ↦ let e : i ≡ m = omega arith in subst P e p
  ]

  Wins-keep : (i k d : ℕ) → Wins i k d → (Elig (at i) → prio (at i) ≤ prio k) → Wins (i + 1) k d
  Wins-keep i k d w h = record {
    met = omega (arith, w.met);
    at_slot = w.at_slot;
    eligible = w.eligible;
    top = below_suc (λ m. Elig (at m) → prio (at m) ≤ prio k) i w.top h;
    first = w.first;
  }

  Wins-new :
      (i : ℕ)
      → ((m : ℕ) → m < i → Elig (at m) → prio (at m) < prio (at i))
      → Elig (at i)
      → Wins (i + 1) (at i) i
  Wins-new i h e = record {
    met = omega arith;
    at_slot = refl;
    eligible = e;
    top =
        below_suc (λ m. Elig (at m) → prio (at m) ≤ prio (at i)) i
          (λ m lt em. omega (arith, h m lt em)) (λ _. omega arith);
    first = h;
  }

  skip : ℕ → Bool
  skip i = is_index (at i) exclude || not (is_ready (state (at i)))

  Scanned-round :
      (i : ℕ) (s : Scan)
      → Scanned i s
      → Scanned (i + 1) (pick_round current state prio count exclude i s)
  unfolding pick_round skip
  Scanned-round i s (nothing e h) = rw e (elim (Bool-cases (skip i)) [
    | inl y ↦ rw y (
        nothing refl (below_suc (λ m. ¬ Elig (at m)) i h (skipped-Eligible state exclude (at i) y)))
    | inr n ↦ rw n (
        holds (at i) i refl
          (Wins-new i (λ m lt em. absurd (h m lt em)) (kept-Eligible state exclude (at i) n)))
  ])
  Scanned-round i s (holds k d e w) = rw e (elim (Bool-cases (skip i)) [
    | inl y ↦ rw y (
        holds k d refl
          (Wins-keep i k d w (λ em. absurd (skipped-Eligible state exclude (at i) y em))))
    | inr n ↦ rw n (elim (Bool-cases (ltb (prio k) (prio (at i)))) [
      | inl more ↦ rw more (
          holds (at i) i refl (
            Wins-new i (λ m lt em. omega (arith, w.top m lt em, ltb→lt _ _ more))
              (kept-Eligible state exclude (at i) n)))
      | inr less ↦
          rw less
            (holds k d refl (Wins-keep i k d w (λ _. ltb-false→le (prio k) (prio (at i)) less)))
    ])
  ])

  Scanned-loop :
      (rounds i j : ℕ) (s : Scan)
      → i + rounds ≡ j
      → Scanned i s
      → Scanned j (pick_loop current state prio count exclude rounds i s)
  unfolding pick_loop
  Scanned-loop zero i j s e h = let e' : i ≡ j = omega arith in subst (λ n. Scanned n s) e' h
  Scanned-loop (suc rounds) i j s e h =
      Scanned-loop rounds (i + 1) j _ (omega arith) (Scanned-round i s h)

-- How many tasks the round-robin order from behind `current` visits before `j`.
abbrev pub turns : ℕ → ℕ → ℕ → ℕ
turns current count j = if ltb current j then j - current - 1 else j + count - current - 1

mod_lap : (n c : ℕ) → n < c → (n + c) % c ≡ n
mod_lap n c h = grind arith

slot-turns :
    (current count j : ℕ)
    → current < count
    → j < count
    → (slot current count (turns current count j) ≡ j) × (turns current count j < count)
slot-turns current count j hc hj = elim (Bool-cases (ltb current j)) [
  | inl y ↦ rw y (ahead (ltb→lt current j y), omega (arith, ltb→lt current j y))
  | inr n ↦ rw n (behind (ltb-false→le current j n), omega (arith, ltb-false→le current j n))
]
  where
    ahead : current < j → (current + 1 + (j - current - 1)) % count ≡ j
    ahead h = let e : current + 1 + (j - current - 1) ≡ j = omega arith in rw e (mod-eq_of_lt hj)

    behind : j ≤ current → (current + 1 + (j + count - current - 1)) % count ≡ j
    behind h =
        let e : current + 1 + (j + count - current - 1) ≡ j + count = omega arith in
        rw e (mod_lap j count hj)

turns-slot :
    (current count d : ℕ)
    → current < count
    → d < count
    → turns current count (slot current count d) ≡ d
turns-slot current count d hc hd = elim (dec_lt (current + 1 + d) count) [
  | yes p ↦ rw (mod-eq_of_lt p) (ground arith)
  | no p ↦ rw (lapped p) (ground arith)
]
  where
    lapped : ¬ (current + 1 + d < count) → (current + 1 + d) % count ≡ current + 1 + d - count
    lapped p =
        mod-eq-sub-mod {n = current + 1 + d} {m = count} (omega arith)
        ∙ mod-eq_of_lt {n = current + 1 + d - count} {m = count} (omega arith)

-- What the pick promises of its result: with none, no task is eligible; a picked task is one of
-- the table that is eligible, no eligible task has a higher priority, and none of the same
-- priority comes sooner in the round-robin order from behind `current`.
module _ (current : ℕ) (state : ℕ → State) (prio : ℕ → ℕ) (count : ℕ) (exclude : Option ℕ) where
  abbrev pub IsPick : Option ℕ → Type 0
  IsPick none = (j : ℕ) → j < count → ¬ Eligible state exclude j
  IsPick (some k) =
      (k < count)
      × Eligible state exclude k
      × ((j : ℕ)
          → j < count
          → Eligible state exclude j
          → (prio j < prio k)
            ⊎ ((prio j ≡ prio k) × (turns current count k ≤ turns current count j)))

  -- The scan's winner against any other eligible task, by the round that met each.
  Wins-rank :
      (k d j : ℕ)
      → Wins current state prio count exclude count k d
      → current < count
      → j < count
      → Eligible state exclude j
      → (prio j < prio k) ⊎ ((prio j ≡ prio k) × (turns current count k ≤ turns current count j))
  Wins-rank k d j w hc hj ej = elim (dec_lt (prio j) (prio k)) [
    | yes p ↦ inl p
    | no p ↦ inr (omega (arith, below), rw turns_k (omega (arith, sooner p)))
  ]
    where
      t : ℕ
      t = turns current count j

      at_j : (slot current count t ≡ j) × (t < count)
      at_j = slot-turns current count j hc hj

      below : prio j ≤ prio k
      below = subst (λ x. Eligible state exclude x → prio x ≤ prio k) at_j.0 (w.top t at_j.1) ej

      sooner : ¬ (prio j < prio k) → d ≤ t
      sooner p = elim (dec_lt t d) [
        | yes q ↦
            absurd
              (p (subst (λ x. Eligible state exclude x → prio x < prio k) at_j.0 (w.first t q) ej))
        | no q ↦ omega arith
      ]

      turns_k : turns current count k ≡ d
      turns_k = rw (← w.at_slot) (turns-slot current count d hc w.met)

  Scanned-IsPick :
      (s : Scan)
      → current < count
      → Scanned current state prio count exclude count s
      → IsPick s.best
  Scanned-IsPick s hc (nothing e h) = rw e (λ j hj ej.
      let (at_j, lt) = slot-turns current count j hc hj in
      h (turns current count j) lt (rw at_j ej))
  Scanned-IsPick s hc (holds k d e w) =
      rw e (
        rw (← w.at_slot) (mod-lt _ (omega arith)),
        w.eligible,
        λ j hj ej. Wins-rank k d j w hc hj ej,
      )

  pub pick_index_ex-IsPick :
      current < count → IsPick (pick_index_ex current state prio count exclude)
  unfolding pick_index_ex
  pick_index_ex-IsPick hc = Scanned-IsPick _ hc (
      Scanned-loop current state prio count exclude count 0 count _ (omega arith)
        (nothing refl (λ m h. elim h [ ])))

  -- A pick that returns a task, made for a current task of the table, returns one of the table
  -- that is ready and not excluded; and every other such task has a lower priority, or the same
  -- priority and a later turn in the round-robin order from behind the current task.
  pub pick_some :
      (k j : ℕ)
      → current < count
      → pick_index_ex current state prio count exclude ≡ some k
      → j < count
      → Eligible state exclude j
      → (k < count)
        × Eligible state exclude k
        × ((prio j < prio k)
            ⊎ ((prio j ≡ prio k) × (turns current count k ≤ turns current count j)))
  pick_some k j hc e hj ej =
      let p : IsPick (some k) = subst IsPick e (pick_index_ex-IsPick hc) in (p.0, p.1, p.2 j hj ej)

  -- A pick that returns no task, made for a current task of the table, leaves out no ready task of
  -- the table but the excluded one.
  pub pick_none :
      (j : ℕ)
      → current < count
      → pick_index_ex current state prio count exclude ≡ none
      → j < count
      → ¬ Eligible state exclude j
  pick_none j hc e hj = subst IsPick e (pick_index_ex-IsPick hc) j hj

  pub pick_lt :
      (k : ℕ)
      → current < count
      → pick_index_ex current state prio count exclude ≡ some k
      → k < count
  pick_lt k hc e = (subst IsPick e (pick_index_ex-IsPick hc)).0

  pub pick_Eligible :
      (k : ℕ)
      → current < count
      → pick_index_ex current state prio count exclude ≡ some k
      → Eligible state exclude k
  pick_Eligible k hc e = (subst IsPick e (pick_index_ex-IsPick hc)).1
