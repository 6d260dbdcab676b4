-- ===== src/Compiler/Tokens.antt =====
-- Normal forms of tokens.
use a2ex.Base.{String, ◌≡◌}
use a2ex.Base.Text.{trim}
use a2ex.Base.Text.Laws.{trim-lower, trim_idem, to_ascii_lowercase_idem}
use a2ex.Compiler.Normalize.{normalize_token}

-- Normalising a token a second time changes nothing, and neither does trimming it first.
pub normalize_token_idem :
    (s : String)
    → (normalize_token (normalize_token s) ≡ normalize_token s)
      × (normalize_token (trim s) ≡ normalize_token s)
unfolding normalize_token
normalize_token_idem s = (rw (trim-lower, trim_idem, to_ascii_lowercase_idem), rw trim_idem)
