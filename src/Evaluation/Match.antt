-- ===== src/Evaluation/Match.antt =====
-- pkg/protocol/evaluation.go: `MatchExecutor`.
use science_ladder.Base.{
  ◌≡◌, Bool, true, false, ◌&&◌, ◌||◌, not, List, [], ◌∷◌, arith, or_none, In, first, later, Bytes,
  is_empty, is_in, text_eq, text_eq→eq, Result, ok, message, ◌>>◌, reject_if, was_true,
  passed_guard, passed_check,
}
use science_ladder.Base.Int.{ℤ, ltb_ℤ, ◌≤ℤ◌}
use science_ladder.Digests.{valid_digest}
use science_ladder.Evaluation.Assets.{EvaluationAsset, same_asset}
use science_ladder.Evaluation.Contract.{EvaluationContract, Resources}

pub record ExecutorCapabilities : Type 0 where
  pub os : Bytes
  pub architecture : Bytes
  pub accelerator : Bytes
  pub hardware_class : Bytes
  pub runtime_image_digest : Bytes
  pub features : List Bytes
  pub max_vcpu : ℤ
  pub max_memory_mb : ℤ
  pub max_session_seconds : ℤ
  pub max_job_seconds : ℤ
  pub assets : List EvaluationAsset

unfoldable pub has_asset : EvaluationAsset → List EvaluationAsset → Bool
unfolding same_asset
has_asset a [] = false
has_asset a (b ∷ bs) = same_asset a b || has_asset a bs

unfoldable pub match_assets : List EvaluationAsset → List EvaluationAsset → Result (Unit {0})
unfolding has_asset
match_assets available [] = ok tt
match_assets available (a ∷ rest) = do
  reject_if (not (has_asset a available)) (message "executor lacks immutable asset")
  match_assets available rest

unfoldable pub match_features : List Bytes → List Bytes → Result (Unit {0})
unfolding text_eq
match_features available [] = ok tt
match_features available (f ∷ rest) = do
  reject_if (not (is_in f available)) (message "executor lacks capability")
  match_features available rest

unfoldable pub wrong_platform : EvaluationContract → ExecutorCapabilities → Bool
unfolding text_eq
wrong_platform e c =
    not (text_eq e.executor.os c.os)
    || not (text_eq e.executor.architecture c.architecture)
    || not (text_eq e.executor.accelerator c.accelerator)
    || (not (is_empty e.executor.hardware_class)
        && not (text_eq e.executor.hardware_class c.hardware_class))

unfoldable pub wrong_runtime : Bytes → ExecutorCapabilities → Bool
unfolding valid_digest text_eq
wrong_runtime digest c = not (valid_digest digest) || not (text_eq digest c.runtime_image_digest)

unfoldable pub too_small : Resources → ExecutorCapabilities → Bool
too_small r c =
    ltb_ℤ c.max_vcpu r.vcpu
    || ltb_ℤ c.max_memory_mb r.memory_mb
    || ltb_ℤ c.max_session_seconds r.timeout_seconds

unfoldable pub match_executor :
    EvaluationContract → Resources → Bytes → ExecutorCapabilities → Result (Unit {0})
unfolding match_assets match_features wrong_platform wrong_runtime too_small
match_executor e resources digest c = do
  reject_if (wrong_platform e c)
      (message "no matching operating system, architecture, accelerator or hardware class")
  reject_if (wrong_runtime digest c) (message "executor runtime differs from locked toolchain")
  reject_if (too_small resources c) (message "executor has insufficient resources")
  match_assets c.assets e.assets
  match_features c.features e.executor.features

features_there :
    (available : List Bytes) (fs : List Bytes) (f : Bytes)
    → match_features available fs ≡ ok tt
    → In f fs
    → is_in f available ≡ true
unfolding match_features
features_there available [] f h i = elim i [ ]
features_there available (g ∷ fs) f h first = ground arith
features_there available (g ∷ fs) f h (later i) = features_there available fs f (ground arith) i

assets_there :
    (available bs : List EvaluationAsset) (a : EvaluationAsset)
    → match_assets available bs ≡ ok tt
    → In a bs
    → has_asset a available ≡ true
unfolding match_assets
assets_there available [] a h i = elim i [ ]
assets_there available (b ∷ bs) a h first = ground arith
assets_there available (b ∷ bs) a h (later i) = assets_there available bs a (ground arith) i

parts :
    (e : EvaluationContract) (resources : Resources) (digest : Bytes) (c : ExecutorCapabilities)
    → match_executor e resources digest c ≡ ok tt
    → (wrong_runtime digest c ≡ false)
      × (too_small resources c ≡ false)
      × (match_assets c.assets e.assets ≡ ok tt)
      × (match_features c.features e.executor.features ≡ ok tt)
unfolding match_executor
parts e resources digest c h =
    let (_, h1) = passed_guard (wrong_platform e c) _ h in
    let (runtime, h2) = passed_guard (wrong_runtime digest c) _ h1 in
    let (size, h3) = passed_guard (too_small resources c) _ h2 in
    let (assets, features) = passed_check (match_assets c.assets e.assets) h3 in
    (runtime, size, assets, features)

runtime_locked :
    (digest : Bytes) (c : ExecutorCapabilities)
    → wrong_runtime digest c ≡ false
    → text_eq digest c.runtime_image_digest ≡ true
unfolding wrong_runtime
runtime_locked digest c h =
    was_true (text_eq digest c.runtime_image_digest)
      (or_none (not (valid_digest digest)) (not (text_eq digest c.runtime_image_digest)) h).1

large_enough :
    (r : Resources) (c : ExecutorCapabilities)
    → too_small r c ≡ false
    → (r.memory_mb ≤ℤ c.max_memory_mb) × (r.timeout_seconds ≤ℤ c.max_session_seconds)
unfolding too_small
large_enough r c h =
    enough (ltb_ℤ c.max_vcpu r.vcpu) r.memory_mb c.max_memory_mb r.timeout_seconds
      c.max_session_seconds h
  where
    enough :
        (other : Bool) (a b c d : ℤ)
        → (other || ltb_ℤ b a || ltb_ℤ d c) ≡ false
        → (a ≤ℤ b) × (c ≤ℤ d)
    enough other a b c d h = (ground (arith, h), ground (arith, h))

-- An executor that matches runs the very image that the contract locks, has the memory and the
-- session time that is asked for, every immutable asset and every capability.
pub match_executor_lem :
    (e : EvaluationContract) (resources : Resources) (digest f : Bytes) (a : EvaluationAsset)
    (c : ExecutorCapabilities)
    → match_executor e resources digest c ≡ ok tt
    → In f e.executor.features
    → In a e.assets
    → (digest ≡ c.runtime_image_digest)
      × (resources.memory_mb ≤ℤ c.max_memory_mb)
      × (resources.timeout_seconds ≤ℤ c.max_session_seconds)
      × (is_in f c.features ≡ true)
      × (has_asset a c.assets ≡ true)
match_executor_lem e resources digest f a c h i j =
    let (runtime, small, assets, features) = parts e resources digest c h in
    let (memory, time) = large_enough resources c small in
    (
      text_eq→eq digest c.runtime_image_digest (runtime_locked digest c runtime),
      memory,
      time,
      features_there c.features e.executor.features f features i,
      assets_there c.assets e.assets a assets j,
    )
