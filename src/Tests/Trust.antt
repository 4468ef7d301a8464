-- ===== src/Tests/Trust.antt =====
-- Roots and PEM on small inputs.
use sealr_verify.Common.{arith, All, List, ◌≡◌, refl, [], ◌∷◌, ◌++◌, false}
use sealr_verify.Common.Text.{Str, codes}
use sealr_verify.Bundle.Writer.Documents.{contains, starts_with}
use sealr_verify.Engine.Base64.{base64_encode, der_to_pem, sextet, table_at, chunk_bits}
use sealr_verify.Engine.Base64.Pem.{der_to_pem_lem, with_newlines, joined, IsWrapped, IsInLine}
use sealr_verify.Engine.Base64.RoundTrip.{decode}

base64_encode_runs : base64_encode (0x4d ∷ 0x61 ∷ 0x6e ∷ 0x4d ∷ []) ≡ codes "TWFuTQ=="
unfolding base64_encode sextet table_at chunk_bits
base64_encode_runs = refl

der_to_pem_lem_example :
    (lines : List Str) × (der_to_pem (0x4d ∷ 0x61 ∷ [])
      ≡ codes "-----BEGIN CERTIFICATE-----\n"
        ++ (with_newlines lines ++ codes "-----END CERTIFICATE-----\n"))
    × IsWrapped lines
    × All (All IsInLine) lines
    × (decode (joined lines) ≡ 0x4d ∷ 0x61 ∷ [])
der_to_pem_lem_example = der_to_pem_lem (0x4d ∷ 0x61 ∷ []) (omega arith)

abbrev pub placeholder : Str
placeholder = codes "# no roots"

pub placeholder_empty : contains (codes "BEGIN CERTIFICATE") placeholder ≡ false
unfolding contains starts_with
placeholder_empty = refl
