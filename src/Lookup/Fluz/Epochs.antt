-- ===== src/Lookup/Fluz/Epochs.antt =====
-- The epochs that the search looks at, and their base times.
use fair_os_dfs.Prelude.{ℕ, suc, ◌*◌, ◌/◌, ◌^◌, ◌≤◌, ◌<◌, ◌≡◌, arith, refl, ap, false}
use fair_os_dfs.Lookup.{base, get_base_time, equals, worst_hint, get_next_epoch}
use fair_os_dfs.Lookup.BaseTime.{IsEpoch, base_lem}
use fair_os_dfs.Lookup.NextLevel.{get_next_level_worst, get_next_level_same_period}

pub next_worst : (t : ℕ) → get_next_epoch worst_hint t ≡ record { time = t; level = 31 }
unfolding get_next_epoch
next_worst t = ap (λ (l : ℕ). record { time = t; level = l }) (get_next_level_worst t)

pub next_found :
    (ht m t : ℕ)
    → ht < 2 ^ 64
    → m < 31
    → t / 2 ^ suc m ≡ ht / 2 ^ suc m
    → get_next_epoch (record { time = ht; level = suc m }) t ≡ record { time = t; level = m }
unfolding get_next_epoch
next_found ht m t fits hi same =
    let valid : IsEpoch (record { time = ht; level = suc m }) = record {
      time_fits = fits;
      level_fits = omega arith;
    } in
    ground (
      arith,
      get_next_level_same_period (record { time = ht; level = suc m }) t valid (omega arith) same,
    )

pub base_at :
    (t l : ℕ) → t < 2 ^ 64 → l ≤ 31 → base (record { time = t; level = l }) ≡ t / 2 ^ l * 2 ^ l
base_at t l fits le =
    base_lem (record { time = t; level = l })
      (record { time_fits = fits; level_fits = omega arith })

pub half_differs :
    (ht m t : ℕ)
    → equals (record { time = t; level = m }) (record { time = ht; level = suc m }) ≡ false
unfolding equals
half_differs ht m t = ground arith

pub base_worst : base worst_hint ≡ 0
unfolding base get_base_time
base_worst = refl
