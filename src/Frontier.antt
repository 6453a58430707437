-- ===== src/Frontier.antt =====
-- pkg/protocol/frontier_claim.go: when a local result may ask for hosted verification.
pub mod Improve
use science_ladder.Base.{◌-◌, Bool, false, ◌&&◌, ◌||◌, not, [], if◌then◌else◌, Bytes, ok, err}
use science_ladder.Base.Int.{ℤ, pos, ltb_ℤ, leb_ℤ, ◌-ℤ◌, neg}
use science_ladder.Ticks.{parse_ticks}
use science_ladder.Metric.{Metric, is_maximize, is_minimize}

-- `x, e := ParseTicks(a); if e != nil { return d }`
abbrev pub read_ticks {ℓ} : {A : Type ℓ} → Bytes → A → (ℤ → A) → A
read_ticks a d use_value = elim (parse_ticks a) [ ok x ↦ use_value x | err e ↦ d ]

unfoldable pub frontier_improvement : Bytes → Bytes → Metric → Bool
frontier_improvement score prior m = read_ticks score false λ x. read_ticks prior false λ y.
    read_ticks m.minimum_delta_ticks false λ d.
      if not (ltb_ℤ (pos 0) d)
      then false
      else if is_minimize m.direction
      then leb_ℤ d (neg (x -ℤ y))
      else if not (is_maximize m.direction)
      then false
      else leb_ℤ d (x -ℤ y)

unfoldable pub admission_frontier : Metric → Bytes → Bytes
admission_frontier m public = read_ticks public m.baseline_ticks λ a.
    read_ticks m.baseline_ticks [] λ b.
      let difference = a -ℤ b in
      if is_maximize m.direction && ltb_ℤ (pos 0) difference
        || is_minimize m.direction && ltb_ℤ difference (pos 0)
      then public
      else m.baseline_ticks
