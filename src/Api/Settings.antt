-- ===== src/Api/Settings.antt =====
-- internal/api/settings_handlers.go: the helpers of the settings, and how what was hidden from the
-- reader is put back. `none` is success where the source returns an error or nil.
pub mod Secrets
use flowguard_lite.Prelude.{
  ℕ, suc, Bool, true, false, not, ◌&&◌, ◌||◌, Option, none, some, List, [], ◌∷◌, ltb, eqb, length,
  any, keep, if◌then◌else◌, ◌==◌, map,
}
use flowguard_lite.Prelude.Ints.{ℤ, pos, negsuc}
use flowguard_lite.Prelude.Maps.{Map, lookup, insert}
use flowguard_lite.Prelude.Text.{Text, codes, text_keys, text_eq, to_lower, trim_space}
use flowguard_lite.Net.{Parsers}
use flowguard_lite.Flow.{is_empty}
use flowguard_lite.Policies.{is_absent}
use flowguard_lite.Syslog.Category.{contains_text}

abbrev pub mask : Text
mask = codes "******"

unfoldable pub is_secret : Text → Bool
is_secret k =
    let lower = to_lower k in
    contains_text (codes "auth") lower
    || contains_text (codes "key") lower
    || contains_text (codes "token") lower
    || contains_text (codes "secret") lower

abbrev pub mask_value : Text → Text → Text
mask_value k v = if is_secret k then mask else v

unfoldable pub masked_headers : Map Text Text → Map Text Text
masked_headers [] = []
masked_headers ((k, v) ∷ rest) = (k, mask_value k v) ∷ masked_headers rest

unfoldable pub masked_token : Text → Text
masked_token token = if is_empty token then token else mask

-- The token afterwards, and whether it changed.
unfoldable pub merge_token : Text → Text → Text × Bool
merge_token old token =
    if not (is_empty token) && not (token == mask) && not (old == token)
    then (token, true)
    else (old, false)

abbrev pub or_blank : Option Text → Text
or_blank none = []
or_blank (some v) = v

-- One header: what is written and whether that is a change.
unfoldable pub merge_header : Map Text Text → Text → Text → Text × Bool
merge_header old k v =
    if v == mask
    then (or_blank (lookup k old), is_absent (lookup k old))
    else (v, not (or_blank (lookup k old) == v))

unfoldable pub merge_all :
    Map Text Text → Map Text Text → Map Text Text → Bool → Map Text Text × Bool
merge_all old [] new changed = (new, changed)
merge_all old ((k, v) ∷ rest) new changed =
    let (value, differs) = merge_header old k v in
    merge_all old rest (insert k value new) (changed || differs)

-- The new headers, and whether they are a change.
unfoldable pub merge_headers : Map Text Text → Map Text Text → Map Text Text × Bool
merge_headers old posted =
    let (new, changed) = merge_all old posted [] false in
    (new, changed || not (eqb (length old) (length new)))

unfoldable pub normalize_string_list : List Text → List Text
normalize_string_list items = keep (λ s. not (is_empty s)) (map trim_space items)

unfoldable pub normalize_allowed_sources : List Text → List Text
normalize_allowed_sources items = keep (λ s. not (is_empty s)) (map trim_space items)

pub data ListError : Type 0 where
  too_many : ListError
  bad_entry : Text → ListError

unfoldable pub first_bad : (Text → Bool) → List Text → Option ListError
first_bad ok [] = none
first_bad ok (s ∷ ss) =
    let later = first_bad ok ss in if not (ok s) then some (bad_entry s) else later

-- Which types the configuration knows is an argument.
unfoldable pub validate_settings_anomaly_types : (Text → Bool) → List Text → Option ListError
validate_settings_anomaly_types is_known items =
    if ltb 64 (length items) then some too_many else first_bad is_known items

unfoldable pub validate_settings_cidrs : Parsers → List Text → Option ListError
validate_settings_cidrs p items =
    if ltb 64 (length items)
    then some too_many
    else first_bad (λ s. not (is_absent (p.parse_cidr s))) items

unfoldable pub equal_string_slices : List Text → List Text → Bool
equal_string_slices [] [] = true
equal_string_slices [] (b ∷ bs) = false
equal_string_slices (a ∷ r) [] = false
equal_string_slices (a ∷ r) (b ∷ bs) = (a == b) && equal_string_slices r bs
