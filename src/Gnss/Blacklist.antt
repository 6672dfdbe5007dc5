-- ===== src/Gnss/Blacklist.antt =====
-- The blacklist of satellites as masks and as a list (gps/gnss/GnssAdapter.cpp), with the data of
-- gps/location/LocationDataTypes.h.
use android_device_xiaomi_ms.Base.{
  ℕ, zero, suc, ◌+◌, ◌-◌, ◌*◌, ◌%◌, Bool, true, not, ◌&&◌, ◌||◌, Option, none, some, List, [], ◌∷◌,
  ◌++◌, ltb, leb, ◌==◌, if◌then◌else◌,
}
use Prim.Native.Nat.{◌/◌}

pub data GnssSvType : Type 0 where
  unknown gps sbas glonass qzss beidou galileo navic : GnssSvType

pub record GnssSvIdSource : Type 0 where
  pub constellation : GnssSvType
  pub sv_id : ℕ

-- The masks are numbers below 2 ^ 64.
pub record GnssSvIdConfig : Type 0 where
  pub glo : ℕ
  pub bds : ℕ
  pub qzs : ℕ
  pub gal : ℕ
  pub sba : ℕ
  pub nav : ℕ

-- Which of the masks `svMaskPtr` points to.
pub data SvMask : Type 0 where
  glo_mask bds_mask qzss_mask gal_mask sbas_mask navic_mask : SvMask

abbrev pub mask_of : SvMask → GnssSvIdConfig → ℕ
mask_of glo_mask c = c.glo
mask_of bds_mask c = c.bds
mask_of qzss_mask c = c.qzs
mask_of gal_mask c = c.gal
mask_of sbas_mask c = c.sba
mask_of navic_mask c = c.nav

abbrev pub with_mask : SvMask → ℕ → GnssSvIdConfig → GnssSvIdConfig
with_mask glo_mask v c = record c { glo = v }
with_mask bds_mask v c = record c { bds = v }
with_mask qzss_mask v c = record c { qzs = v }
with_mask gal_mask v c = record c { gal = v }
with_mask sbas_mask v c = record c { sba = v }
with_mask navic_mask v c = record c { nav = v }

-- The numbers `initialSvId` and `svIndexOffset`.
pub record Placing : Type 0 where
  pub mask : SvMask
  pub initial_sv_id : ℕ
  pub sv_index_offset : ℕ

abbrev pub placing_at : SvMask → ℕ → ℕ → Option Placing
placing_at m initial offset =
    some (record { mask = m; initial_sv_id = initial; sv_index_offset = offset })

-- The `switch` of `convertToGnssSvIdConfig`; none where `svMaskPtr` is NULL.
unfoldable pub placing : GnssSvType → ℕ → Option Placing
placing GnssSvType.glonass id = placing_at glo_mask 65 0
placing GnssSvType.beidou id = placing_at bds_mask 201 0
placing GnssSvType.qzss id = placing_at qzss_mask 193 0
placing GnssSvType.galileo id = placing_at gal_mask 301 0
placing GnssSvType.sbas id =
    if id == 0
    then placing_at sbas_mask 0 0
    else if leb 183 id
    then placing_at sbas_mask 183 39
    else if leb 120 id && ltb id 159
    then placing_at sbas_mask 120 0
    else none
placing GnssSvType.navic id = placing_at navic_mask 401 0
placing _ id = none

-- 2 ^ n.
unfoldable pub bit : ℕ → ℕ
bit zero = 1
bit (suc n) = 2 * bit n

-- `mask | (1ULL << n)`.
unfoldable pub set_bit : ℕ → ℕ → ℕ
unfolding bit
set_bit mask n = if mask / bit n % 2 == 1 then mask else mask + bit n

abbrev pub all_bits : ℕ
all_bits = 18446744073709551615

-- One round of the loop of `convertToGnssSvIdConfig`; nothing where 1ULL is shifted by 64 or more,
-- which has no meaning.
unfoldable pub add_source : GnssSvIdSource → GnssSvIdConfig → Option GnssSvIdConfig
unfolding placing set_bit
add_source source config = elim (placing source.constellation source.sv_id) [
  | none ↦ some config
  | some p ↦
      let shift = source.sv_id + p.sv_index_offset - p.initial_sv_id in
      if source.sv_id == 0
      then some (with_mask p.mask all_bits config)
      else if ltb source.sv_id p.initial_sv_id || leb (p.initial_sv_id + 64) source.sv_id
      then some config
      else if ltb shift 64
      then some (with_mask p.mask (set_bit (mask_of p.mask config) shift) config)
      else none
]

unfoldable pub add_sources : List GnssSvIdSource → GnssSvIdConfig → Option GnssSvIdConfig
unfolding add_source
add_sources [] config = some config
add_sources (source ∷ rest) config = elim (add_source source config) [
  | none ↦ none
  | some config' ↦ add_sources rest config'
]

abbrev pub no_bits : GnssSvIdConfig
no_bits = record { glo = 0; bds = 0; qzs = 0; gal = 0; sba = 0; nav = 0 }

abbrev pub any_bits : GnssSvIdConfig → Bool
any_bits c =
    not (c.glo == 0)
    || not (c.bds == 0)
    || not (c.gal == 0)
    || not (c.qzs == 0)
    || not (c.sba == 0)
    || not (c.nav == 0)

-- `convertToGnssSvIdConfig`, with what it returns.
unfoldable pub convert_to_gnss_sv_id_config :
    List GnssSvIdSource → GnssSvIdConfig → Option (GnssSvIdConfig × Bool)
unfolding add_sources
convert_to_gnss_sv_id_config [] config = some (no_bits, true)
convert_to_gnss_sv_id_config (source ∷ rest) config = elim (add_sources (source ∷ rest) config) [
  | none ↦ none
  | some config' ↦ some (config', any_bits config')
]

-- The id of a bit.
unfoldable pub id_of_bit : GnssSvType → ℕ → ℕ → ℕ
id_of_bit GnssSvType.sbas initial n = if leb 39 n then n - 39 + 183 else n + initial
id_of_bit _ initial n = n + initial

-- The loop of `convertGnssSvIdMaskToList` from bit `n` on, on fuel.
unfoldable pub mask_loop : ℕ → ℕ → ℕ → ℕ → GnssSvType → List GnssSvIdSource
unfolding id_of_bit
mask_loop zero n mask initial t = []
mask_loop (suc fuel) n mask initial t =
    let rest = mask_loop fuel (suc n) (mask / 2) initial t in
    let here : GnssSvIdSource = record { constellation = t; sv_id = id_of_bit t initial n } in
    if mask == 0 then [] else if mask % 2 == 1 then here ∷ rest else rest

-- `convertGnssSvIdMaskToList`: 64 rounds are enough for a mask of 64 bits.
unfoldable pub convert_gnss_sv_id_mask_to_list : ℕ → ℕ → GnssSvType → List GnssSvIdSource
convert_gnss_sv_id_mask_to_list mask initial t =
    if mask == all_bits
    then record { constellation = t; sv_id = 0 } ∷ []
    else mask_loop 64 0 mask initial t

abbrev pub if_any : ℕ → List GnssSvIdSource → List GnssSvIdSource
if_any mask list = if mask == 0 then [] else list

-- The masks of the two ranges of SBAS: the shift to the left cuts at 64 bits.
unfoldable pub sbas_sources : ℕ → List GnssSvIdSource
sbas_sources mask =
    convert_gnss_sv_id_mask_to_list (mask * 33554432 % 18446744073709551616 / 33554432) 120
      GnssSvType.sbas
    ++ convert_gnss_sv_id_mask_to_list (mask / 549755813888) 183 GnssSvType.sbas

-- `convertFromGnssSvIdConfig`, into an empty list.
unfoldable pub convert_from_gnss_sv_id_config : GnssSvIdConfig → List GnssSvIdSource
convert_from_gnss_sv_id_config c =
    if_any c.bds (convert_gnss_sv_id_mask_to_list c.bds 201 GnssSvType.beidou)
    ++ (if_any c.gal (convert_gnss_sv_id_mask_to_list c.gal 301 GnssSvType.galileo)
        ++ (if_any c.glo (convert_gnss_sv_id_mask_to_list c.glo 65 GnssSvType.glonass)
            ++ (if_any c.qzs (convert_gnss_sv_id_mask_to_list c.qzs 193 GnssSvType.qzss)
                ++ (if_any c.sba (sbas_sources c.sba)
                    ++ if_any c.nav (convert_gnss_sv_id_mask_to_list c.nav 401 GnssSvType.navic)))))
