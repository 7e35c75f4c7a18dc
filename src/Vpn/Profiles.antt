-- ===== src/Vpn/Profiles.antt =====
-- src/services/vpn/vpnmanager.cpp: the list of profiles, their countries, and the tunnel that an
-- earlier run has left.
use batorrent.Base.{
  Bool, List, Option, Text, [], codes, false, get_elem?, if◌then◌else◌, is_empty, is_some, map,
  none, not, remove_at, set, some, suc, take, text_eq, trimmed, zero, ℕ, ◌&&◌, ◌++◌, ◌==◌, ◌||◌,
  ◌∷◌,
}
use batorrent.Vpn.Manager.{
  Vpn, profiles_changed, interface_up, Profile, ActiveTunnel, bad_config, cannot_write, cannot_save,
  ConfRead, cannot_open, invalid, valid, output, profile_index, set_vpn_state, clear_active_tunnel,
  disconnect_vpn, connected,
}

unfoldable pub save_index : Vpn → Vpn
save_index v = record v { index = map (λ (p : Profile). (p.id, p.name)) v.profiles }

-- What writing the .conf answers.
pub data Written : Type 0 where
  not_opened not_committed written : Written

abbrev pub new_profile : Text → Text → Text → Profile
new_profile id name endpoint = record {
  id = id;
  name = if is_empty (trimmed name) then codes "WireGuard" else trimmed name;
  endpoint = endpoint;
  cc = [];
  pending_ip = [];
}

-- `parsed` is parseWireguardConfig of the text, `id` the new UUID; the answer is the id, or empty.
unfoldable pub import_parsed : Text → Text → Written → ConfRead → Vpn → Vpn × Text
unfolding save_index trimmed
import_parsed id name w cannot_open v = (v, [])
import_parsed id name w (invalid why) v = (record v { error = bad_config why }, [])
import_parsed id name not_opened (valid endpoint) v = (record v { error = cannot_write }, [])
import_parsed id name not_committed (valid endpoint) v = (record v { error = cannot_save }, [])
import_parsed id name written (valid endpoint) v = (
  output profiles_changed
      (save_index (record v { profiles = v.profiles ++ new_profile id name endpoint ∷ [] })),
  id,
)

abbrev renamed_profile : Text → Profile → Profile
renamed_profile name p = record p { name = name }

unfoldable pub rename_profile : Text → Text → Vpn → Vpn
unfolding profile_index save_index trimmed
rename_profile id name v = elim (profile_index id v.profiles) [
  | none ↦ v
  | some i ↦ elim (get_elem? v.profiles i) [
    | none ↦ v
    | some p ↦
        if is_empty (trimmed name) || text_eq p.name (trimmed name)
        then v
        else output profiles_changed (
            save_index
              (record v { profiles = set v.profiles i (renamed_profile (trimmed name) p) }))
  ]
]

unfoldable pub remove_profile : Text → Vpn → Vpn
unfolding profile_index save_index disconnect_vpn
remove_profile id v = elim (profile_index id v.profiles) [
  | none ↦ v
  | some i ↦
      let d = if text_eq v.active_id id then disconnect_vpn v else v in
      output profiles_changed (save_index (record d { profiles = remove_at i d.profiles }))
]

-- host of "host:port", without the brackets of an IPv6 address.
abbrev colon_at : Text → Option ℕ
colon_at [] = none
colon_at (c ∷ s) = elim (colon_at s) [
  | none ↦ if c == b':' then some 0 else none
  | some i ↦ some (suc i)
]

abbrev no_brackets : Text → Text
no_brackets [] = []
no_brackets (c ∷ s) = let rest = no_brackets s in if c == b'[' || c == b']' then rest else c ∷ rest

abbrev before_colon : Text → Option ℕ → Text
before_colon s none = s
before_colon s (some zero) = s
before_colon s (some (suc i)) = take (suc i) s

unfoldable pub host_of : Text → Text
host_of endpoint = no_brackets (before_colon endpoint (colon_at endpoint))

-- What is asked about a host: to resolve an address, or to look a name up.
pub data Lookup : Type 0 where
  resolve : Text → Lookup
  look_up : Text → Lookup

abbrev settled : Text → Text → Profile → Profile
settled ip cached p = record p { pending_ip = ip; cc = if is_empty cached then p.cc else cached }

-- `is_address` is QHostAddress, `cached` the country that the resolver knows already.
module _ (is_address : Text → Bool) (cached : Text → Text) where
  unfoldable pub ask_country : ℕ → Profile → Vpn → Vpn × Option Lookup
  unfolding host_of
  ask_country i p v =
      let host = host_of p.endpoint in
      if not (is_empty p.cc) || is_empty host
      then (v, none)
      else if not (is_address host)
      then (v, some (look_up host))
      else (
        record v { profiles = set v.profiles i (settled host (cached host) p) },
        if is_empty (cached host) then some (resolve host) else none,
      )

  unfoldable pub resolve_country : Text → Vpn → Vpn × Option Lookup
  unfolding profile_index ask_country
  resolve_country id v = elim (profile_index id v.profiles) [
    | none ↦ (v, none)
    | some i ↦ elim (get_elem? v.profiles i) [ none ↦ (v, none) | some p ↦ ask_country i p v ]
  ]

  unfoldable pub found_address : ℕ → Text → Profile → Vpn → Vpn × Option Lookup
  found_address i ip p v =
      let d : Vpn = record v { profiles = set v.profiles i (settled ip (cached ip) p) } in
      if not (is_empty p.cc)
      then (v, none)
      else if is_empty (cached ip)
      then (d, some (resolve ip))
      else (output profiles_changed d, none)

  -- The name has been looked up; the profile may be gone.
  unfoldable pub on_looked_up : Text → Option Text → Vpn → Vpn × Option Lookup
  unfolding profile_index found_address
  on_looked_up id none v = (v, none)
  on_looked_up id (some ip) v = elim (profile_index id v.profiles) [
    | none ↦ (v, none)
    | some i ↦ elim (get_elem? v.profiles i) [ none ↦ (v, none) | some p ↦ found_address i ip p v ]
  ]

abbrev awaits : Text → Profile → Bool
awaits ip p = is_empty p.cc && text_eq p.pending_ip ip

abbrev any_awaits : Text → List Profile → Bool
any_awaits ip [] = false
any_awaits ip (p ∷ ps) = awaits ip p || any_awaits ip ps

unfoldable pub on_resolved : Text → Text → Vpn → Vpn
on_resolved ip cc v =
    if is_empty cc || not (any_awaits ip v.profiles)
    then v
    else output profiles_changed (record v {
      profiles = map (λ (p : Profile). if awaits ip p then record p { cc = cc } else p) v.profiles;
    })

-- `still_up` is whether an interface of that name is up, `adopts` whether the .conf exists and the
-- tunnel takes it over.
unfoldable pub adopt_as : Bool → (Text → Bool) → (Text → Text → Bool) → ActiveTunnel → Vpn → Vpn
unfolding profile_index clear_active_tunnel set_vpn_state
adopt_as is_real still_up adopts t v =
    if is_empty t.iface
    then v
    else if not (still_up t.iface) || is_empty t.conf || not (adopts t.conf t.iface)
    then clear_active_tunnel is_real v
    else output (interface_up t.iface) (
        set_vpn_state connected (record v {
          active_id = if is_some (profile_index t.profile v.profiles) then t.profile else [];
          last_conf = t.conf;
          iface = t.iface;
        }))

unfoldable pub adopt_running_tunnel : Bool → (Text → Bool) → (Text → Text → Bool) → Vpn → Vpn
unfolding adopt_as
adopt_running_tunnel is_real still_up adopts v = elim v.active [
  | none ↦ v
  | some t ↦ adopt_as is_real still_up adopts t v
]

-- Entries without an id or whose .conf is gone are left out; the endpoint is read from the .conf.
unfoldable pub load_profiles : (Text → Option ConfRead) → List (Text × Text) → List Profile
load_profiles conf_file [] = []
load_profiles conf_file ((id, name) ∷ es) =
    let rest = load_profiles conf_file es in
    elim (conf_file id) [
      | none ↦ rest
      | some c ↦
          if is_empty id
          then rest
          else record { id = id; name = name; endpoint = endpoint_of c; cc = []; pending_ip = [] }
            ∷ rest
    ]
  where
    endpoint_of : ConfRead → Text
    endpoint_of cannot_open = []
    endpoint_of (invalid why) = []
    endpoint_of (valid endpoint) = endpoint
