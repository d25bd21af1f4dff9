-- ===== src/Engine/Versioning.antt =====
-- astrai/inference/core/versioning.py: the version of the weights that the trainer and the server
-- share. The world that the callbacks act on is a type `W`; `ensure_ready`, `on_commit`, `update` and
-- `inspect` are parameters, and a callback that raises gives an error. The lock makes each method one
-- step; it is not modelled. A version is a natural number, so `_validate` has no counterpart of its
-- tests for a boolean and a negative one. A step that fails gives its error alone: the state that the
-- exception leaves behind is not modelled.
use astr_ai.Base.{
  ℕ, ◌+◌, ◌≤◌, ◌<◌, ◌≡◌, Bool, true, false, Option, none, some, ltb, ◌==◌, if◌then◌else◌, Result,
  ok, value_error, ◌>>=◌, ◌>>◌, raise_if, arith,
}

-- `PolicyVersionGuard` for a world `W`.
pub record Guard {ℓ} (W : Type ℓ) : Type ℓ where
  pub version : ℕ
  pub world : W

module _ {ℓ} {W : Type ℓ} (ensure_ready : W → Result W) (on_commit : W → Result W) where
  -- `_validate`, on a natural number.
  unfoldable pub validate : Guard W → ℕ → Bool → Result (Unit {0})
  validate g policy_version require_advance = do
    raise_if (ltb policy_version g.version) value_error
    raise_if (if require_advance then policy_version == g.version else false) value_error
    ok tt

  unfoldable pub commit : Guard W → ℕ → Result (Guard W)
  commit g policy_version = do
    w ← on_commit g.world
    ok (record { version = policy_version; world = w })

  unfoldable pub update_weights : Guard W → ℕ → Result (Guard W)
  unfolding validate commit
  update_weights g policy_version = do
    validate g policy_version false
    if policy_version == g.version then ok g else (do
      w ← ensure_ready g.world
      commit (record { version = g.version; world = w }) policy_version)

  -- The version that `apply_weight_update` publishes.
  unfoldable pub target : Guard W → Option ℕ → Result ℕ
  unfolding validate
  target g none = ok (g.version + 1)
  target g (some v) = do validate g v true; ok v

  unfoldable pub apply_weight_update :
      {A : Type ℓ} → Guard W → Option ℕ → (ℕ → W → Result (W × A)) → Result (Guard W × A)
  unfolding target commit
  apply_weight_update g policy_version update = do
    v ← target g policy_version
    w ← ensure_ready g.world
    (w', result) ← update v w
    g' ← commit (record { version = g.version; world = w' }) v
    ok (g', result)

  unfoldable pub with_policy_snapshot :
      {A : Type ℓ} → Guard W → (ℕ → W → Result (W × A)) → Result (Guard W × A)
  with_policy_snapshot g inspect = do
    (w, result) ← inspect g.version g.world
    ok (record { version = g.version; world = w }, result)

module _ {ℓ} {W : Type ℓ} (ensure_ready : W → Result W) (on_commit : W → Result W) where
  -- An acknowledged update leaves exactly the version that was named, which is never below the one in
  -- force.
  pub update_weights-version :
      (g : Guard W) (v : ℕ) (g' : Guard W)
      → update_weights ensure_ready on_commit g v ≡ ok g'
      → (g'.version ≡ v) × (g.version ≤ g'.version)
  unfolding update_weights validate commit
  update_weights-version g v g' h = ground arith

  -- A published update leaves a version strictly above the one in force: the version that was named,
  -- or the next one when none was.
  pub apply_weight_update-version :
      {A : Type ℓ} (g : Guard W) (v : Option ℕ) (update : ℕ → W → Result (W × A)) (g' : Guard W)
      (a : A)
      → apply_weight_update ensure_ready on_commit g v update ≡ ok (g', a)
      → (g.version < g'.version)
        × (v ≡ none → g'.version ≡ g.version + 1)
        × ((n : ℕ) → v ≡ some n → g'.version ≡ n)
  unfolding apply_weight_update target validate commit
  apply_weight_update-version g v update g' a h = ground arith
