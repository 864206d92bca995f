-- ===== src/Error/Laws.antt =====
-- How the classifications of src/error.rs relate.
use sockudo_ws.Base.{true, false, ◌≡◌, ◌⊎◌, arith}
use sockudo_ws.Error.Defs.{Error, ErrorKind, kind, is_fatal, is_recoverable}

-- An error that may be retried is never fatal, and its kind is I/O or capacity.
is_recoverable_lem :
    (e : Error)
    → is_recoverable e ≡ true
    → (is_fatal e ≡ false) × ((kind e ≡ ErrorKind.io) ⊎ (kind e ≡ ErrorKind.capacity))
unfolding is_recoverable is_fatal kind
is_recoverable_lem (Error.io e) h = cc
is_recoverable_lem _ h = ground arith
