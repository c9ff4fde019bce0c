-- ===== src/Settings/Restart.antt =====
-- A setting of app/settings.py that is changed, and read after a restart.
use vegapunk_web.Base.{◌++◌, some, ◌≡◌, refl, list_beq}
use vegapunk_web.Base.Dict
use vegapunk_web.Base.Dict.{lookup-insert, keys}
use vegapunk_web.Text.{Text, text_eq}
use vegapunk_web.Json.{ok}
use vegapunk_web.Settings.{
  Redis, Spelling, Cache, threshold_key, setting_prefix, defaults, get, load, load_keys, update,
}

-- What Redis documents: a value that was written is read.
pub record KeepsWrites (R : Redis) : Type 0 where
  pub read-write :
      (s after : R.State) (key value : Text)
      → R.write s key value ≡ ok after
      → R.read after key ≡ ok (some value)

module _ (F : Spelling) (R : Redis) (K : KeepsWrites R) where
  -- An update that Redis accepts is in force at once, and again after a restart, which starts from the
  -- defaults and loads, if the spelling of the value is read as the value.
  pub load-update :
      (s after : R.State) (cache : Cache F R) (value : F.Float)
      → F.float_of (F.str_of value) ≡ some value
      → R.write s (setting_prefix ++ threshold_key) (F.str_of value) ≡ ok after
      → (changed : Cache F R) × (update F R (some s) threshold_key value cache
          ≡ ok (changed, some after))
        × (get F R changed threshold_key ≡ ok value)
        × (get F R (load F R (some after) (defaults F R)) threshold_key ≡ ok value)
  unfolding update get load load_keys keys list_beq Dict.lookup Dict.insert
  load-update s after cache value p w = (
    Dict.insert threshold_key value cache,
    rw w refl,
    rw (lookup-insert threshold_key threshold_key value cache) refl,
    rw (K.read-write s after (setting_prefix ++ threshold_key) (F.str_of value) w) (rw p refl),
  )
