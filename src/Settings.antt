-- ===== src/Settings.antt =====
-- app/settings.py: the settings in memory, and their copy in Redis; write_settings of
-- app/routes/notes.py. Floats, their spelling and Redis are parameters.
pub mod Restart
use vegapunk_web.Base.{
  ◌++◌, Bool, true, false, Option, none, some, List, [], ◌∷◌, map, contains, if◌then◌else◌,
}
use vegapunk_web.Base.Dict
use vegapunk_web.Base.Dict.{Dict, keys}
use vegapunk_web.Text.{Text, text_eq, codes}
use vegapunk_web.Json.{Outcome, ok, raised, or_raise, ◌>>=◌}

-- `redis.get` and `redis.set`, which may raise.
pub record Redis : Type 1 where
  pub State : Type 0
  pub read : State → Text → Outcome (Option Text)
  pub write : State → Text → Text → Outcome State

-- `float(raw)`, `str(value)` and the float literal of `_DEFAULTS`
pub record Spelling : Type 1 where
  pub Float : Type 0
  pub float_of : Text → Option Float
  pub str_of : Float → Text
  pub threshold : Float

abbrev pub threshold_key : Text
threshold_key = codes "vec_dist_threshold"

abbrev pub setting_prefix : Text
setting_prefix = codes "setting:"

module _ (F : Spelling) (R : Redis) where
  abbrev pub Cache : Type 0
  Cache = Dict Text F.Float

  abbrev pub defaults : Cache
  defaults = (threshold_key, F.threshold) ∷ []

  -- `_cache.get(key, _DEFAULTS[key])`: the default is looked up first.
  abbrev pub or_default : F.Float → Option F.Float → F.Float
  or_default d none = d
  or_default d (some v) = v

  unfoldable pub get : Cache → Text → Outcome F.Float
  get cache key = do
    d ← or_raise (Dict.lookup key defaults)
    ok (or_default d (Dict.lookup key cache))

  abbrev pub parsed : Text → Option F.Float → Cache → Cache
  parsed key none cache = cache
  parsed key (some v) cache = Dict.insert key v cache

  abbrev pub with_raw : Text → Option Text → Cache → Cache
  with_raw key none cache = cache
  with_raw key (some raw) cache = parsed key (F.float_of raw) cache

  -- The loop of `load`, which returns when a read raises.
  unfoldable pub load_keys : List Text → R.State → Cache → Cache
  load_keys [] s cache = cache
  load_keys (key ∷ ks) s cache = elim (R.read s (setting_prefix ++ key)) [
    | raised ↦ cache
    | ok raw ↦ load_keys ks s (with_raw key raw cache)
  ]

  unfoldable pub load : Option R.State → Cache → Cache
  unfolding load_keys keys
  load none cache = cache
  load (some s) cache = load_keys (keys defaults) s cache

  abbrev pub kept : R.State → Outcome R.State → R.State
  kept s raised = s
  kept s (ok after) = after

  abbrev pub backed_up : Option R.State → Text → F.Float → Option R.State
  backed_up none key value = none
  backed_up (some s) key value = some (kept s (R.write s (setting_prefix ++ key) (F.str_of value)))

  -- The settings and the copy behind an update.
  unfoldable pub update : Option R.State → Text → F.Float → Cache → Outcome (Cache × Option R.State)
  unfolding keys
  update redis key value cache =
      if contains (keys defaults) key
      then ok (Dict.insert key value cache, backed_up redis key value)
      else raised

  -- `write_settings`, on the values in the body of the request: a value that is no number raises.
  abbrev pub posted : Text → Option Text → Option R.State → Cache → Outcome (Cache × Option R.State)
  posted key none redis cache = ok (cache, redis)
  posted key (some raw) redis cache = do
    value ← or_raise (F.float_of raw)
    update redis key value cache

  unfoldable pub write_settings :
      List Text → Dict Text Text → Option R.State → Cache → Outcome (Cache × Option R.State)
  unfolding update
  write_settings [] body redis cache = ok (cache, redis)
  write_settings (key ∷ ks) body redis cache = do
    after ← posted key (Dict.lookup key body) redis cache
    write_settings ks body after.1 after.0
