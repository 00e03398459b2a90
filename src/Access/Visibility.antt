-- ===== src/Access/Visibility.antt =====
-- packages/core/src/visibility.ts: what the public site is allowed to render. Instants are
-- milliseconds since the epoch.
use presslabz.Base.{ℕ, Bool, false, Option, none, some, leb, if◌then◌else◌}
use presslabz.Access.Policy.{ContentStatus, is_public_status}

unfoldable pub is_publicly_visible : ContentStatus → Option ℕ → ℕ → Bool
unfolding is_public_status
is_publicly_visible status none now = is_public_status status
is_publicly_visible status (some published_at) now =
    if is_public_status status then leb published_at now else false
