-- ===== src/Bundle/Writer/Readme.antt =====
-- `VERIFY.md`: the text that a bundle carries for its reader.
use sealr_verify.Common.{List, [], ◌∷◌, ◌++◌}
use sealr_verify.Common.Text.{Str, codes}
use sealr_verify.Bundle.Manifest.{ToolInfo}

abbrev pub media_type : Str
media_type = codes "application/vnd.sealr.bundle+zip"

-- the pieces of a text, one after the other
abbrev joined : List Str → Str
joined [] = []
joined (s ∷ l) = s ++ joined l

unfoldable pub verify_md_template : ToolInfo → Str
verify_md_template tool = joined (
    codes "# Verifying this Seal bundle\n"
    ∷ codes "\n"
    ∷ codes "This is an Sealr evidence bundle (`"
    ∷ media_type
    ∷ codes "`).\n"
    ∷ codes "\n"
    ∷ codes "To verify it offline, without contacting Sealr:\n"
    ∷ codes "\n"
    ∷ codes "```\n"
    ∷ codes "sealr-verify <this-file>.seal\n"
    ∷ codes "```\n"
    ∷ codes "\n"
    ∷ codes "The verifier is open source (Apache-2.0): https://github.com/sealr/sealr \n"
    ∷ codes "Verifier releases embed the Sealr root public keys; you may also pass\n"
    ∷ codes "`--root <pem>` to pin your own trusted root, and `--json` for machine output.\n"
    ∷ codes "\n"
    ∷ codes "The bundle manifest (`manifest.json`) lists the BLAKE3-256 hash of every entry.\n"
    ∷ codes "The manifest's own canonical hash is `BLAKE3-256(JCS(manifest.json))`; the\n"
    ∷ codes "exporter prints it at export time — compare it with the value communicated to\n"
    ∷ codes "you out of band.\n"
    ∷ codes "\n"
    ∷ codes "Standing limits (also printed by the verifier): Sealr evidence is\n"
    ∷ codes "tamper-evident, not tamper-proof; it proves integrity, ordering, timing, and\n"
    ∷ codes "origin of the recorded stream only; proven time comes from timestamp anchors;\n"
    ∷ codes "subject attribution quality is as recorded, not independently proven.\n"
    ∷ codes "\n"
    ∷ codes "Exported by "
    ∷ tool.name
    ∷ codes " "
    ∷ tool.version
    ∷ codes ".\n"
    ∷ [])
