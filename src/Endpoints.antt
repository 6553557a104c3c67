-- ===== src/Endpoints.antt =====
-- The endpoint table of val/src/val_endpoint_info.c and the lookups in it; the granule choice of that
-- file is modelled in Paging. The table is a list of which the index is the logical id. Assertions,
-- which a build can leave out, are taken to be left out.
mod Sync
mod Layout
mod Relay
mod Presence
mod Descriptors
mod Tests
use ff_a_acs.Base.{
  ℕ, zero, suc, ◌+◌, ◌%◌, ◌==◌, ◌!=◌, ◌&&◌, leb, if◌then◌else◌, Option, none, some, List, [], ◌∷◌,
  length, get_or,
}
use ff_a_acs.Ffa.{Args}
use ff_a_acs.Ffa.Session.{get_curr_endpoint_id}

pub record Endpoint : Type 0 where
  pub name : List ℕ
  pub is_valid : ℕ
  pub is_secure : ℕ
  pub id : ℕ
  pub tg0 : ℕ
  pub el_info : ℕ
  pub ec_count : ℕ
  pub ep_properties : ℕ
  pub uuid : List ℕ

-- What the model reads past the table.
abbrev pub no_endpoint : Endpoint
no_endpoint = record {
  name = [];
  is_valid = 0;
  is_secure = 0;
  id = 0;
  tg0 = 0;
  el_info = 0;
  ec_count = 0;
  ep_properties = 0;
  uuid = [];
}

unfoldable pub get_endpoint_id : List Endpoint → ℕ → ℕ
get_endpoint_id table logical_id =
    if leb (length table) logical_id then 0 else (get_or table logical_id no_endpoint).id

-- The loop of `val_get_endpoint_logical_id` over the entries from `logical_id` on; `none` is a panic.
unfoldable pub logical_id_from : ℕ → List Endpoint → ℕ → Option ℕ
logical_id_from id [] logical_id = none
logical_id_from id (e ∷ es) logical_id =
    let rest = logical_id_from id es (logical_id + 1) in
    if e.id == id then some logical_id else rest

-- Entry 0 stands for no endpoint and is passed over.
unfoldable pub behind_first : List Endpoint → List Endpoint
behind_first [] = []
behind_first (e ∷ es) = es

unfoldable pub get_endpoint_logical_id : List Endpoint → ℕ → Option ℕ
unfolding logical_id_from behind_first
get_endpoint_logical_id table id = logical_id_from id (behind_first table) 1

module _ {W : Type 0} (conduit : W → Args → Args × W) where
  -- Each round asks the firmware for the current id, and so does the message behind the loop, where
  -- nothing was found; `none` is a panic.
  unfoldable pub curr_logical_id_from : List Endpoint → ℕ → W → Option ℕ × W
  curr_logical_id_from [] logical_id w =
      let (id, w') = get_curr_endpoint_id conduit w in
      (elim id [ none ↦ none | some _ ↦ some logical_id ], w')
  curr_logical_id_from (e ∷ es) logical_id w =
      let (id, w') = get_curr_endpoint_id conduit w in
      let rest = curr_logical_id_from es (logical_id + 1) w' in
      elim id [
        | none ↦ (none, w')
        | some current ↦ if e.id == current then (some logical_id, w') else rest
      ]

  unfoldable pub get_curr_endpoint_logical_id : List Endpoint → W → Option ℕ × W
  unfolding curr_logical_id_from behind_first
  get_curr_endpoint_logical_id table w = curr_logical_id_from (behind_first table) 1 w

unfoldable pub get_secure_partition_count : List Endpoint → ℕ
get_secure_partition_count [] = 0
get_secure_partition_count (e ∷ es) =
    let rest = get_secure_partition_count es in
    if (e.is_valid != 0) && (e.is_secure != 0) then 1 + rest else rest

unfoldable pub is_partition_valid : List Endpoint → ℕ → ℕ
is_partition_valid table logical_id =
    if leb (length table) logical_id
    then 0
    else if (get_or table logical_id no_endpoint).is_valid != 0
    then 1
    else 0

unfoldable pub get_endpoint_el_info : List Endpoint → ℕ → ℕ
get_endpoint_el_info table logical_id = (get_or table logical_id no_endpoint).el_info

-- An index past the table changes nothing.
unfoldable pub set_endpoint_tt_tg0 : List Endpoint → ℕ → ℕ → List Endpoint
set_endpoint_tt_tg0 [] logical_id tg0 = []
set_endpoint_tt_tg0 (e ∷ es) zero tg0 = record e { tg0 = tg0 % 256 } ∷ es
set_endpoint_tt_tg0 (e ∷ es) (suc logical_id) tg0 = e ∷ set_endpoint_tt_tg0 es logical_id tg0
