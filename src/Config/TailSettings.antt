-- ===== src/Config/TailSettings.antt =====
-- What `TailInput` takes from its configuration: the constructor in src/inputs/tail/TailInput.cpp.
use iqlogger.Common.{
  ℕ, ◌≡◌, refl, Bool, true, false, not, ◌&&◌, Option, none, some, List, [], ◌∷◌, Bytes, codes, ◌==◌,
  if◌then◌else◌,
}
use mathlib.Core.Option
use iqlogger.Config.{Library, get_param}

pub record TailSettings : Type 0 where
  pub path : Bytes
  pub startmsg_regex : Option Bytes
  pub follow_only : Bool
  pub save_state : Bool
  pub read_timeout : ℕ

-- The settings; an exception; or, for an empty path, a read in front of its first byte.
pub data Built : Type 0 where
  built : TailSettings → Built
  thrown undefined : Built

-- `m_path[m_path.size() - 1] == '/'`, and `pop_back`.
unfoldable pub without_slash : Bytes → Option Bytes
without_slash [] = none
without_slash (c ∷ []) = if c == b'/' then some [] else some (c ∷ [])
without_slash (c ∷ d ∷ cs) = Option.map (◌∷◌ c) (without_slash (d ∷ cs))

unfoldable pub value_or : {A : Type 0} → A → Option A → A
value_or default none = default
value_or default (some a) = a

-- Follow-only mode and the saving of positions; `none`: they are incompatible.
unfoldable pub save_state_of : Bool → Option Bool → Option Bool
unfolding value_or
save_state_of true save = if value_or false save then none else some false
save_state_of false save = some (value_or true save)

unfoldable pub with_modes : Option Bool → (Bool → TailSettings) → Built
with_modes none settings = thrown
with_modes (some save_state) settings = built (settings save_state)

unfoldable pub with_path : Option Bytes → (Bytes → Built) → Built
with_path none rest = undefined
with_path (some path) rest = rest path

unfoldable pub path_given : Option Bytes → (Bytes → Built) → Built
unfolding with_path without_slash
path_given none rest = thrown
path_given (some path) rest = with_path (without_slash path) rest

module _ {J T : Type 0} (library : Library J T) where
  abbrev pub follow_only_of : List (Bytes × J) → Bool
  follow_only_of params =
      value_or false (get_param library library.as_bool (codes "follow_only_mode") params)

  abbrev pub settings_of : List (Bytes × J) → Bytes → Bool → TailSettings
  settings_of params path save_state = record {
    path = path;
    startmsg_regex = get_param library library.as_string (codes "startmsg_regex") params;
    follow_only = follow_only_of params;
    save_state = save_state;
    read_timeout = value_or 10 (get_param library library.as_short (codes "read_timeout") params);
  }

  abbrev pub modes_of : List (Bytes × J) → Option Bool
  modes_of params =
      save_state_of (follow_only_of params)
        (get_param library library.as_bool (codes "save_state") params)

  -- The constructor.
  unfoldable pub tail_settings : List (Bytes × J) → Built
  unfolding path_given with_modes save_state_of get_param value_or
  tail_settings params =
      path_given (get_param library library.as_string (codes "path") params)
        (λ path. with_modes (modes_of params) (settings_of params path))

-- Settings that are built do not both follow only and save positions, and save what was asked for:
-- without a wish, positions are saved unless the file is only followed.
abbrev pub IsSensible : Option Bool → Built → Type 0
IsSensible save (built s) =
    ((s.follow_only && s.save_state) ≡ false) × (s.save_state ≡ value_or (not s.follow_only) save)
IsSensible save _ = Unit

with_path-IsSensible :
    (save : Option Bool) (path : Option Bytes) (rest : Bytes → Built)
    → ((b : Bytes) → IsSensible save (rest b))
    → IsSensible save (path_given path rest)
unfolding path_given with_path
with_path-IsSensible save none rest h = tt
with_path-IsSensible save (some path) rest h = go (without_slash path)
  where
    go : (o : Option Bytes) → IsSensible save (with_path o rest)
    go none = tt
    go (some p) = h p

save_state_of-IsSensible :
    (follow : Bool) (save : Option Bool) (settings : Bool → TailSettings)
    → ((b : Bool) → ((settings b).follow_only ≡ follow) × ((settings b).save_state ≡ b))
    → IsSensible save (with_modes (save_state_of follow save) settings)
unfolding with_modes save_state_of value_or
save_state_of-IsSensible true none settings h =
    let (f, g) = h false in (rw (f, g) refl, rw (f, g) refl)
save_state_of-IsSensible true (some true) settings h = tt
save_state_of-IsSensible true (some false) settings h = let (f, g) = h false in (rw (f, g) refl, g)
save_state_of-IsSensible false none settings h = let (f, g) = h true in (rw f refl, rw (f, g) refl)
save_state_of-IsSensible false (some b) settings h = let (f, g) = h b in (rw f refl, g)

module _ {J T : Type 0} (library : Library J T) where
  -- Whatever the parameters are: if settings are built, they do not both follow only and save
  -- positions; and they save them as the parameters say, or, without a word of it, unless the file
  -- is only followed.
  pub tail_settings-IsSensible :
      (params : List (Bytes × J))
      → IsSensible
          (get_param library library.as_bool (codes "save_state") params)
          (tail_settings library params)
  unfolding tail_settings
  tail_settings-IsSensible params =
      let save = get_param library library.as_bool (codes "save_state") params in
      with_path-IsSensible save (get_param library library.as_string (codes "path") params)
        (λ path. with_modes (modes_of library params) (settings_of library params path))
        (λ path.
          save_state_of-IsSensible (follow_only_of library params) save
            (settings_of library params path) (λ b. (refl, refl)))
