-- ===== src/Lookup/Placement.antt =====
-- Where the updates of a feed are placed (createSoc, newRequest and updateSoc of
-- pkg/feed/handler.go): the first at GetFirstEpoch, each later one at GetNextEpoch of the newest.
use mathlib.Core.List.{Memᴰ}
use mathlib.Core.List.Memᴰ
use fair_os_dfs.Prelude.{
  ℕ, zero, suc, ◌+◌, ◌-◌, ◌/◌, ◌^◌, ◌≤◌, ◌<◌, ◌≡◌, ◌≢◌, ◌⊎◌, inl, inr, none, some, List, [], ◌∷◌,
  false, arith, ap, subst, ◌∙◌, sym, ◌==◌, ◌&&◌, if◌then◌else◌, ==_iff, Bool-cases, Option-cases,
}
use fair_os_dfs.Prelude.Bits.{shift_suc'}
use native.Mathlib.Decide.{dec_le, dec_lt}
use fair_os_dfs.Lookup.{
  Epoch, base, epoch_eq, no_clue, get_first_epoch, get_next_epoch, get_next_level,
}
use fair_os_dfs.Lookup.BaseTime.{IsEpoch, base-shift}
use fair_os_dfs.Lookup.Period.{period_le}
use fair_os_dfs.Lookup.NextLevel.{get_next_level-le, get_next_level_bounds, get_next_level_nearest}
use fair_os_dfs.Lookup.Tree.{Slots, Holds, IsTree, ancestor}

-- The updates of a feed, newest first, at increasing 64-bit times.
pub data History : List Epoch → Type 0 where
  created : (now : ℕ) → now < 2 ^ 64 → History (get_first_epoch now ∷ [])
  updated :
      {last : Epoch} {older : List Epoch} (now : ℕ)
      → History (last ∷ older)
      → last.time < now
      → now < 2 ^ 64
      → History (get_next_epoch last now ∷ last ∷ older)

-- The update that a list of updates has for a level and a period.
pub slots : List Epoch → Slots
slots [] l q = none
slots (e ∷ es) l q = if e.level == l && e.time / 2 ^ e.level == q then some e.time else slots es l q

slots_head :
    (e : Epoch) (es : List Epoch) → slots (e ∷ es) e.level (e.time / 2 ^ e.level) ≡ some e.time
unfolding slots
slots_head e es = ground arith

-- What holds of a history with its newest update in front.
record IsPlaced (last : Epoch) (es : List Epoch) : Type 0 where
  tree : IsTree (slots es)
  valid : IsEpoch last
  level_top : last.level ≤ 31
  known : epoch_eq last no_clue ≡ false
  head : slots es last.level (last.time / 2 ^ last.level) ≡ some last.time
  newest : (l q x : ℕ) → slots es l q ≡ some x → x ≤ last.time
  all : (e : Epoch) → Memᴰ e es → slots es e.level (e.time / 2 ^ e.level) ≡ some e.time
  free_below :
      (l x : ℕ)
      → Holds (slots es) l x
      → l < last.level
      → x / 2 ^ last.level ≢ last.time / 2 ^ last.level

-- From its level up the base time has the time's periods.
base-shift_up :
    (e : Epoch) (k j : ℕ) → IsEpoch e → e.level + j ≡ k → base e / 2 ^ k ≡ e.time / 2 ^ k
base-shift_up e k zero v h = let e' : k ≡ e.level = omega arith in rw e' (base-shift e v)
base-shift_up e zero (suc j) v h = absurd (omega arith)
base-shift_up e (suc k) (suc j) v h =
    shift_suc' (base e) k
    ∙ ap (λ (x : ℕ). x / 2) (base-shift_up e k j v (omega arith))
    ∙ sym (shift_suc' e.time k)

module _ (last : Epoch) (es : List Epoch) (placed : IsPlaced last es) (now : ℕ)
    (later : last.time < now) where
  abbrev next : ℕ
  next = get_next_level last now

  agrees : next < 31 → now / 2 ^ suc next ≡ last.time / 2 ^ suc next
  agrees lt =
      (get_next_level_nearest last now placed.level_top).0 lt
      ∙ base-shift_up last (suc next) (suc next - last.level) placed.valid
          (omega (arith, placed.level_top, get_next_level_bounds last now))

  -- The slot of the next epoch holds nothing yet.
  free : slots es next (now / 2 ^ next) ≡ none
  free = elim (Option-cases (slots es next (now / 2 ^ next))) [
    | inl e ↦ e
    | inr (x, held) ↦ absurd (
        taken x held (placed.newest next (now / 2 ^ next) x held)
          (placed.tree.in_period next (now / 2 ^ next) x held).0)
  ]
    where
      above_zero : (x : ℕ) → x ≤ last.time → x / 2 ^ next ≡ now / 2 ^ next → 0 < next
      above_zero x le same = elim (dec_lt 0 next) [
        | yes p ↦ p
        | no p ↦
            let z : next ≡ 0 = omega arith in
            let same' : x / 2 ^ 0 ≡ now / 2 ^ 0 = rw z at same in absurd (omega arith)
      ]

      taken :
          (x : ℕ)
          → slots es next (now / 2 ^ next) ≡ some x
          → x ≤ last.time
          → x / 2 ^ next ≡ now / 2 ^ next
          → ⊥
      taken x held le same = elim (dec_le last.level next) [
        | yes high ↦
            (get_next_level_nearest last now placed.level_top).1 high (above_zero x le same) (
              omega (
                arith,
                same,
                period_le next x last.time le,
                period_le next last.time now (omega arith),
                base-shift_up last next (next - last.level) placed.valid (omega arith),
              ))
        | no low ↦
            let up : last.level ≡ suc next =
              omega (arith, placed.level_top, get_next_level_bounds last now) in
            placed.free_below next x (rw (sym same) at held) (omega arith) (
              rw up (
                shift_suc' x next
                ∙ ap (λ (q : ℕ). q / 2) same
                ∙ sym (shift_suc' now next)
                ∙ agrees (omega (arith, placed.level_top))))
      ]

  -- The parent of the next epoch's slot holds an earlier update.
  parent : next < 31 → (w : ℕ) × (slots es (suc next) (now / 2 ^ suc next) ≡ some w) × (w < now)
  parent lt =
      let (w, held, le) =
        ancestor (slots es) placed.tree (suc next - last.level) last.level (suc next) last.time
          (omega (arith, placed.level_top, get_next_level_bounds last now)) (omega arith)
          placed.head in
      (w, rw (agrees lt) held, omega arith)

  abbrev placed_next : Epoch
  placed_next = record { time = now; level = next }

  abbrev slots' : Slots
  slots' = slots (placed_next ∷ es)

  -- A slot of the longer list is the new update's, or was there before.
  slot_cases :
      (l q x : ℕ)
      → slots' l q ≡ some x
      → ((l ≡ next) × (q ≡ now / 2 ^ next) × (x ≡ now)) ⊎ (slots es l q ≡ some x)
  unfolding slots
  slot_cases l q x held = elim (Bool-cases (next == l && now / 2 ^ next == q)) [
    | inl mine ↦ inl (ground arith, ground arith, ground arith)
    | inr other ↦ inr (rw other at held)
  ]

  -- What was there before still is, since the new update's slot was free.
  slot_keeps : (l q x : ℕ) → slots es l q ≡ some x → slots' l q ≡ some x
  unfolding slots
  slot_keeps l q x held = elim (Bool-cases (next == l && now / 2 ^ next == q)) [
    | inl mine ↦
        cc (free, (==_iff next l).0 (ground arith), (==_iff (now / 2 ^ next) q).0 (ground arith))
    | inr other ↦ rw other held
  ]

  next-IsTree : IsTree slots'
  next-IsTree = record {
    in_period = λ l q x held. elim (slot_cases l q x held) [
      | inl (el, eq, ex) ↦ (cc, omega (arith, get_next_level-le last now))
      | inr old ↦ placed.tree.in_period l q x old
    ];
    has_parent = λ l x held lt. elim (slot_cases l (x / 2 ^ l) x held) [
      | inl (el, eq, ex) ↦
          let (w, above, before) = parent (omega arith) in
          (w, rw (el, ex) (slot_keeps (suc next) (now / 2 ^ suc next) w above), omega arith)
      | inr old ↦
          let (w, above, before) = placed.tree.has_parent l x old lt in
          (w, slot_keeps (suc l) (x / 2 ^ suc l) w above, before)
    ];
  }

  next-IsPlaced : now < 2 ^ 64 → IsPlaced placed_next (placed_next ∷ es)
  next-IsPlaced fits = record {
    tree = next-IsTree;
    valid = record { time_fits = fits; level_fits = omega (arith, get_next_level-le last now) };
    level_top = get_next_level-le last now;
    known = ground arith;
    head = slots_head placed_next es;
    newest = λ l q x held. elim (slot_cases l q x held) [
      | inl (el, eq, ex) ↦ omega arith
      | inr old ↦ omega (arith, placed.newest l q x old)
    ];
    all = λ e mem. elim (Memᴰ.cases_cons mem) [
      | inl same ↦
          subst (λ x. slots' x.level (x.time / 2 ^ x.level) ≡ some x.time) (sym same)
            (slots_head placed_next es)
      | inr mem' ↦ slot_keeps e.level (e.time / 2 ^ e.level) e.time (placed.all e mem')
    ];
    free_below = λ l x held lt same. elim (slot_cases l (x / 2 ^ l) x held) [
      | inl (el, eq, ex) ↦ omega arith
      | inr old ↦
          let (w, above, before) =
            ancestor (slots es) placed.tree (next - l) l next x (omega arith)
              (get_next_level-le last now) old in
          cc (free, (rw same at above))
    ];
  }

first-IsPlaced :
    (now : ℕ) → now < 2 ^ 64 → IsPlaced (get_first_epoch now) (get_first_epoch now ∷ [])
unfolding get_first_epoch slots
first-IsPlaced now fits = record {
  tree = record {
    in_period = λ l q x held. ground arith;
    has_parent = λ l x held lt. ground arith;
  };
  valid = record { time_fits = fits; level_fits = omega arith };
  level_top = omega arith;
  known = ground arith;
  head = ground arith;
  newest = λ l q x held. ground arith;
  all = λ e mem.
      subst (λ x. slots (get_first_epoch now ∷ []) x.level (x.time / 2 ^ x.level) ≡ some x.time)
        (sym (Memᴰ.eq_of_singleton mem)) (slots_head (get_first_epoch now) []);
  free_below = λ l x held lt same. ground arith;
}

next_epoch_known :
    (last : Epoch) (now : ℕ)
    → epoch_eq last no_clue ≡ false
    → record { time = now; level = get_next_level last now } ≡ get_next_epoch last now
unfolding get_next_epoch
next_epoch_known last now known = rw known

History-IsPlaced :
    {last : Epoch} {older : List Epoch} → History (last ∷ older) → IsPlaced last (last ∷ older)
History-IsPlaced (created now fits) = first-IsPlaced now fits
History-IsPlaced (updated {last} {older} now h later fits) =
    let before = History-IsPlaced h in
    subst (λ e. IsPlaced e (e ∷ last ∷ older)) (next_epoch_known last now before.known)
      (next-IsPlaced last (last ∷ older) before now later fits)

-- Wherever GetNextEpoch puts the updates of a feed, made at increasing 64-bit times, no update
-- takes the slot of another: each of them stands in the slot of its own level and period; what a
-- slot holds lies in its period, its parent period holds an earlier update, and the newest update
-- is in the slot of its epoch and no slot holds a later time.
pub History-IsTree :
    {last : Epoch} {older : List Epoch}
    → History (last ∷ older)
    → IsTree (slots (last ∷ older))
      × Holds (slots (last ∷ older)) last.level last.time
      × ((l q x : ℕ) → slots (last ∷ older) l q ≡ some x → x ≤ last.time)
      × ((e : Epoch)
          → Memᴰ e (last ∷ older)
          → slots (last ∷ older) e.level (e.time / 2 ^ e.level) ≡ some e.time)
History-IsTree h =
    let placed = History-IsPlaced h in (placed.tree, placed.head, placed.newest, placed.all)
