-- ===== src/Record/Fields.antt =====
-- What the chain reads back from the JSON form of a record.
use sealr_verify.Common.{false, ◌≡◌, refl, sym, ◌∙◌, ap, some}
use sealr_verify.Common.Text.{Str, codes, str_eq}
use sealr_verify.Json.{Fields, get, remove, text, u64}
use sealr_verify.Json.Members.{get-put_opt_ne, remove-put_opt_ne}
use sealr_verify.Record.Types.{Record}
use sealr_verify.Record.ToValue.{
  to_fields, head_fields, optional_fields, tail_fields, record_type_name,
}

-- the names of the optional fields
abbrev pub IsOptionalKey : Str → Type 0
IsOptionalKey k =
    (str_eq (codes "action_detail") k ≡ false)
    × (str_eq (codes "payload_commitment") k ≡ false)
    × (str_eq (codes "payload_ref") k ≡ false)
    × (str_eq (codes "verdict") k ≡ false)
    × (str_eq (codes "approval_ref") k ≡ false)
    × (str_eq (codes "links") k ≡ false)

get-optional_fields :
    (k : Str) (r : Record) (rest : Fields)
    → IsOptionalKey k
    → get k (optional_fields r rest) ≡ get k rest
unfolding optional_fields
get-optional_fields k r rest (a, b, c, d, e, f) =
    get-put_opt_ne k _ _ _ a
    ∙ get-put_opt_ne k _ _ _ b
    ∙ get-put_opt_ne k _ _ _ c
    ∙ get-put_opt_ne k _ _ _ d
    ∙ get-put_opt_ne k _ _ _ e
    ∙ get-put_opt_ne k _ _ _ f

remove-optional_fields :
    (k : Str) (r : Record) (rest : Fields)
    → IsOptionalKey k
    → remove k (optional_fields r rest) ≡ optional_fields r (remove k rest)
unfolding optional_fields
remove-optional_fields k r rest (a, b, c, d, e, f) = simp (
  remove-put_opt_ne k _ _ _ a,
  remove-put_opt_ne k _ _ _ b,
  remove-put_opt_ne k _ _ _ c,
  remove-put_opt_ne k _ _ _ d,
  remove-put_opt_ne k _ _ _ e,
  remove-put_opt_ne k _ _ _ f,
)

-- Each of the fields that the chain reads is found under its name.
pub record HasFields (fs : Fields) (r : Record) : Type 0 where
  pub record_id : get (codes "record_id") fs ≡ some (text r.record_id)
  pub stream_id : get (codes "stream_id") fs ≡ some (text r.stream_id)
  pub segment_id : get (codes "segment_id") fs ≡ some (text r.segment_id)
  pub seq : get (codes "seq") fs ≡ some (u64 r.seq)
  pub ts_wall : get (codes "ts_wall") fs ≡ some (text r.ts_wall)
  pub ts_mono_ns : get (codes "ts_mono_ns") fs ≡ some (u64 r.ts_mono_ns)
  pub record_type : get (codes "record_type") fs ≡ some (text (record_type_name r.record_type))
  pub prev_hash : get (codes "prev_hash") fs ≡ some (text r.prev_hash)
  pub record_hash : get (codes "record_hash") fs ≡ some (text r.record_hash)

get-prev_hash :
    (r : Record)
    → get (codes "prev_hash") (optional_fields r (tail_fields r)) ≡ some (text r.prev_hash)
unfolding get str_eq tail_fields
get-prev_hash r =
    get-optional_fields (codes "prev_hash") r (tail_fields r) (refl, refl, refl, refl, refl, refl)

get-record_hash :
    (r : Record)
    → get (codes "record_hash") (optional_fields r (tail_fields r)) ≡ some (text r.record_hash)
unfolding get str_eq tail_fields
get-record_hash r =
    get-optional_fields (codes "record_hash") r (tail_fields r) (refl, refl, refl, refl, refl, refl)

pub to_fields-HasFields : (r : Record) → HasFields (to_fields r) r
unfolding to_fields head_fields get str_eq
to_fields-HasFields r = record {
  record_id = refl;
  stream_id = refl;
  segment_id = refl;
  seq = refl;
  ts_wall = refl;
  ts_mono_ns = refl;
  record_type = refl;
  prev_hash = get-prev_hash r;
  record_hash = get-record_hash r;
}

remove-head_fields :
    (r : Record) (rest : Fields)
    → remove (codes "record_hash") (head_fields r rest)
      ≡ head_fields r (remove (codes "record_hash") rest)
unfolding head_fields remove str_eq
remove-head_fields r rest = refl

remove-tail_fields :
    (r : Record) (h : Str)
    → remove (codes "record_hash") (tail_fields (record r { record_hash = h }))
      ≡ remove (codes "record_hash") (tail_fields r)
unfolding tail_fields remove str_eq
remove-tail_fields r h = refl

remove-rest :
    (r : Record)
    → remove (codes "record_hash") (to_fields r)
      ≡ head_fields r (optional_fields r (remove (codes "record_hash") (tail_fields r)))
unfolding to_fields str_eq
remove-rest r =
    remove-head_fields r _
    ∙ ap (head_fields r) (
        remove-optional_fields (codes "record_hash") r (tail_fields r)
          (refl, refl, refl, refl, refl, refl))

same_front :
    (r : Record) (h : Str) (rest : Fields)
    → head_fields
        (record r { record_hash = h })
        (optional_fields (record r { record_hash = h }) rest)
      ≡ head_fields r (optional_fields r rest)
unfolding head_fields optional_fields
same_front r h rest = refl

-- The hash is taken without the field `record_hash`, so setting that field does not change it.
pub remove-record_hash :
    (r : Record) (h : Str)
    → remove (codes "record_hash") (to_fields (record r { record_hash = h }))
      ≡ remove (codes "record_hash") (to_fields r)
remove-record_hash r h =
    remove-rest (record r { record_hash = h })
    ∙ same_front r h _
    ∙ ap (λ t. head_fields r (optional_fields r t)) (remove-tail_fields r h)
    ∙ sym (remove-rest r)
