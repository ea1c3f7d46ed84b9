-- ===== src/Usage/Slots.antt =====
-- The concurrency slots of src/aegis_fabric/usage.py with the in-process counters.
use aegis_capstone.Common.{
  ℕ, ◌+◌, ◌-◌, ◌≤◌, ◌<◌, String, ◌≡◌, refl, ap, ◌∙◌, inl, inr, Bool, true, false, Option, some,
  List, [], ◌∷◌, arith, ◌==◌, eq_iff, ltb, eqb, if◌then◌else◌, Bool-cases, eq_refl,
}
use aegis_capstone.Common.Dict.{Dict, insert, lookup-insert}
use aegis_capstone.Usage.{
  MemoryUsage, Settings, acquire_slot, decr_conc_memory, incr_conc_memory, counter, memory_backend,
  release_slot, take_back, user_key,
}

counter-insert :
    (k j : String) (n : ℕ) (d : Dict ℕ)
    → counter j (insert k n d) ≡ (if k == j then n else counter j d)
counter-insert k j n d = elim (Bool-cases (k == j)) [
  | inl e ↦ rw (lookup-insert k j n d, e) refl
  | inr e ↦ rw (lookup-insert k j n d, e) refl
]

-- The slots that a user holds.
abbrev pub slots : String → MemoryUsage → ℕ
slots key s = counter key s.conc

slots-incr_conc :
    (key j : String) (s : MemoryUsage)
    → slots j (incr_conc_memory key s).1 ≡ (if key == j then slots key s + 1 else slots j s)
unfolding incr_conc_memory
slots-incr_conc key j s = counter-insert key j (slots key s + 1) s.conc

slots-decr_conc :
    (key j : String) (s : MemoryUsage)
    → slots j (decr_conc_memory key s).1 ≡ (if key == j then slots key s - 1 else slots j s)
unfolding decr_conc_memory
slots-decr_conc key j s = counter-insert key j (slots key s - 1) s.conc

-- What `acquire_slot` does: it takes a slot while one is free, and changes no count otherwise.
pub data Acquired (key : String) (max_concurrent : ℕ) (s : MemoryUsage)
    : Option Bool × MemoryUsage → Type 0 where
  taken :
      (t : MemoryUsage)
      → slots key s < max_concurrent
      → ((j : String) → slots j t ≡ (if key == j then slots key s + 1 else slots j s))
      → Acquired key max_concurrent s (some true, t)
  full :
      (t : MemoryUsage)
      → max_concurrent ≤ slots key s
      → ((j : String) → slots j t ≡ slots j s)
      → Acquired key max_concurrent s (some false, t)

slots_restored :
    (key j : String) (s : MemoryUsage)
    → slots j (decr_conc_memory key (incr_conc_memory key s).1).1 ≡ slots j s
slots_restored key j s = elim (Bool-cases (key == j)) [
  | inl e ↦
      let q : key ≡ j = (eq_iff key j).0 e in
      rw
        (
          slots-decr_conc key j (incr_conc_memory key s).1,
          slots-incr_conc key key s,
          e,
          eq_refl key,
        )
        (omega (arith, ap (λ x. slots x s) q))
  | inr e ↦ rw (slots-decr_conc key j (incr_conc_memory key s).1, slots-incr_conc key j s, e) refl
]

Acquired-take_back :
    (cfg : Settings) (key : String) (max_concurrent : ℕ) (s : MemoryUsage)
    → Acquired key max_concurrent s (
        take_back cfg memory_backend key max_concurrent
          (some (slots key s + 1), (incr_conc_memory key s).1))
unfolding decr_conc_memory
Acquired-take_back cfg key max_concurrent s =
    elim (Bool-cases (ltb max_concurrent (slots key s + 1))) [
      | inl e ↦ rw e (
          full (decr_conc_memory key (incr_conc_memory key s).1).1 (ground arith)
            (λ j. slots_restored key j s))
      | inr e ↦
          rw e (taken (incr_conc_memory key s).1 (ground arith) (λ j. slots-incr_conc key j s))
    ]

-- Under a maximum above 0, `acquire_slot` never raises with the in-process counters. It takes a slot
-- exactly when the user holds fewer than the maximum; otherwise it refuses and every count is as
-- before. No other user's count changes.
pub acquire_slot-Acquired :
    (cfg : Settings) (tenant sub : String) (max_concurrent : ℕ) (s : MemoryUsage)
    → 1 ≤ max_concurrent
    → Acquired
        (user_key tenant sub)
        max_concurrent
        s
        (acquire_slot cfg memory_backend tenant sub max_concurrent s)
unfolding acquire_slot incr_conc_memory
acquire_slot-Acquired cfg tenant sub max_concurrent s h =
    let z : eqb max_concurrent 0 ≡ false = ground arith in
    rw z (Acquired-take_back cfg (user_key tenant sub) max_concurrent s)

-- A call of either operation.
pub data SlotCall : Type 0 where
  enter leave : String → String → SlotCall

module _ (cfg : Settings) (max_concurrent : ℕ) where
  unfoldable pub slot_step : SlotCall → MemoryUsage → MemoryUsage
  slot_step (enter tenant sub) s = (acquire_slot cfg memory_backend tenant sub max_concurrent s).1
  slot_step (leave tenant sub) s = (release_slot cfg memory_backend tenant sub max_concurrent s).1

  unfoldable pub slot_steps : List SlotCall → MemoryUsage → MemoryUsage
  unfolding slot_step
  slot_steps [] s = s
  slot_steps (c ∷ cs) s = slot_steps cs (slot_step c s)

  slots-Acquired :
      (key j : String) (s : MemoryUsage) (r : Option Bool × MemoryUsage)
      → Acquired key max_concurrent s r
      → slots j s ≤ max_concurrent
      → slots j r.1 ≤ max_concurrent
  slots-Acquired key j s _ (taken t l f) h = elim (Bool-cases (key == j)) [
    | inl e ↦ let q = f j in let m : slots j t ≡ slots key s + 1 = rw e at q in omega arith
    | inr e ↦ let q = f j in let m : slots j t ≡ slots j s = rw e at q in omega arith
  ]
  slots-Acquired key j s _ (full t l f) h = omega (arith, f j)

  slots-release_slot :
      (tenant sub : String) (j : String) (s : MemoryUsage)
      → 1 ≤ max_concurrent
      → slots j (release_slot cfg memory_backend tenant sub max_concurrent s).1 ≤ slots j s
  unfolding release_slot
  slots-release_slot tenant sub j s h =
      let key = user_key tenant sub in
      let z : eqb max_concurrent 0 ≡ false = ground arith in
      rw z (elim (Bool-cases (key == j)) [
        | inl e ↦
            let q : key ≡ j = (eq_iff key j).0 e in
            let m : slots j (decr_conc_memory key s).1 ≡ slots key s - 1 =
              slots-decr_conc key j s ∙ rw e refl in
            omega (arith, ap (λ x. slots x s) q)
        | inr e ↦
            let m : slots j (decr_conc_memory key s).1 ≡ slots j s =
              slots-decr_conc key j s ∙ rw e refl in
            omega arith
      ])

  -- Whatever users acquire and release slots, in whatever order, also releases without an acquisition,
  -- no user ever holds more slots than the maximum when none did at the start.
  pub slot_steps-slots :
      (cs : List SlotCall) (s : MemoryUsage) (j : String)
      → 1 ≤ max_concurrent
      → slots j s ≤ max_concurrent
      → slots j (slot_steps cs s) ≤ max_concurrent
  unfolding slot_steps
  slot_steps-slots [] s j h l = l
  slot_steps-slots (enter tenant sub ∷ cs) s j h l =
      slot_steps-slots cs (slot_step (enter tenant sub) s) j h (
        slots-Acquired (user_key tenant sub) j s
          (acquire_slot cfg memory_backend tenant sub max_concurrent s)
          (acquire_slot-Acquired cfg tenant sub max_concurrent s h) l)
  slot_steps-slots (leave tenant sub ∷ cs) s j h l =
      slot_steps-slots cs (slot_step (leave tenant sub) s) j h
        (omega (arith, slots-release_slot tenant sub j s h))
