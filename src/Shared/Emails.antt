-- ===== src/Shared/Emails.antt =====
-- The two sides of `email.split("@")`, as apps/api/src/disclosure/disclosure.service.ts and
-- apps/api/src/auth/auth.service.ts take them, with "" for a side that is missing.
use serveproof.Prelude.{[], ◌∷◌, Text, ◌==◌, if◌then◌else◌}

unfoldable pub before_at : Text → Text
before_at [] = []
before_at (c ∷ cs) = let rest = before_at cs in if c == b'@' then [] else c ∷ rest

unfoldable pub after_at : Text → Text
unfolding before_at
after_at [] = []
after_at (c ∷ cs) = let rest = after_at cs in if c == b'@' then before_at cs else rest
