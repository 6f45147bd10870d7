-- ===== src/Credentials/Moves.antt =====
-- A step of a task keeps each field of the invariant.
use asyncio_otlp_client.Base.{
  ℕ, ◌+◌, ◌≤◌, ◌≡◌, ◌≢◌, sym, ◌∙◌, true, false, ◌||◌, ==_iff, is_some, arith,
}
use asyncio_otlp_client.Floats.{Floats}
use asyncio_otlp_client.Credentials.Defs.{Grant, TokenLibraries}
use asyncio_otlp_client.Credentials.System.{
  Pc, minting, Shared, counted, Move, serves, waits, finds, asks, mints, gets_none, stops_waiting,
  stops_minting, TokenSystem, update,
}
use asyncio_otlp_client.Credentials.Invariant.{IsQuiet, usable-keeps, take_reply-returns, Inv}

module _ {W : Type 0} (R : Floats) (lib : TokenLibraries W (R.F)) (grant : Grant R.F)
    (quiet : IsQuiet R lib) where
  module _ (s : TokenSystem R lib grant) (inv : Inv R lib grant quiet s) (i : ℕ) where
    abbrev pub Moves : Shared W R.F → Pc → Type 0
    Moves u q = Move R lib grant s.shared (s.pc i) u q

    pub Move-held :
        (u : Shared W R.F) (q : Pc)
        → Moves u q
        → (j : ℕ) → update R lib grant s.pc i q j ≡ minting
        → u.locked ≡ true
    Move-held u q (serves c r e f g) j m = ground (arith, inv.held j)
    Move-held u q (waits c r e f g) j m = ground (arith, inv.held j)
    Move-held u q (finds c r l e f g) j m = ground (arith, inv.held j)
    Move-held u q (asks c d r l e o f g) j m = ground (arith, inv.held j)
    Move-held u q (mints reply c r e f g) j m = ground (arith, inv.held j, inv.one i j)
    Move-held u q (gets_none reply x c r e f g) j m = ground (arith, inv.held j, inv.one i j)
    Move-held u q (stops_waiting x r f g) j m = ground (arith, inv.held j)
    Move-held u q (stops_minting x r f g) j m = ground (arith, inv.held j, inv.one i j)

    -- The holder of the lock goes on, unless it is the task that moves.
    others :
        (u : Shared W R.F) (q : Pc)
        → u.locked ≡ s.shared.locked
        → s.pc i ≢ minting
        → u.locked ≡ true
        → (j : ℕ) × (update R lib grant s.pc i q j ≡ minting)
    others u q same other l =
        let (j, m) = inv.holder (sym same ∙ l) in (j, ground (arith, ==_iff i j))

    pub Move-holder :
        (u : Shared W R.F) (q : Pc)
        → Moves u q
        → u.locked ≡ true
        → (j : ℕ) × (update R lib grant s.pc i q j ≡ minting)
    Move-holder u q (asks c d r l e o f g) h = (i, ground arith)
    Move-holder u q (serves c r e f g) h = others u q (ground arith) (ground arith) h
    Move-holder u q (waits c r e f g) h = others u q (ground arith) (ground arith) h
    Move-holder u q (finds c r l e f g) h = others u q (ground arith) (ground arith) h
    Move-holder u q (stops_waiting x r f g) h = others u q (ground arith) (ground arith) h
    Move-holder u q (mints reply c r e f g) h = ground arith
    Move-holder u q (gets_none reply x c r e f g) h = ground arith
    Move-holder u q (stops_minting x r f g) h = ground arith

    pub Move-one :
        (u : Shared W R.F) (q : Pc)
        → Moves u q
        → (j k : ℕ) → update R lib grant s.pc i q j ≡ minting
        → update R lib grant s.pc i q k ≡ minting
        → j ≡ k
    Move-one u q (asks c d r l e o f g) j k m n =
        ground (arith, inv.held j, inv.held k, inv.one j k)
    Move-one u q (serves c r e f g) j k m n = ground (arith, inv.one j k)
    Move-one u q (waits c r e f g) j k m n = ground (arith, inv.one j k)
    Move-one u q (finds c r l e f g) j k m n = ground (arith, inv.one j k)
    Move-one u q (mints reply c r e f g) j k m n = ground (arith, inv.one j k)
    Move-one u q (gets_none reply x c r e f g) j k m n = ground (arith, inv.one j k)
    Move-one u q (stops_waiting x r f g) j k m n = ground (arith, inv.one j k)
    Move-one u q (stops_minting x r f g) j k m n = ground (arith, inv.one j k)

    -- The bound on the requests.
    abbrev pub IsFew : Shared W R.F → Type 0
    IsFew u =
        u.requests
        ≤ u.fruitless + u.invalidations + u.expired + counted (u.locked || is_some u.cache.token)

    pub Move-IsFew : (u : Shared W R.F) (q : Pc) → Moves u q → IsFew u
    Move-IsFew u q (serves c r e f g) =
        ground (arith, inv.few, usable-keeps R lib grant quiet s.shared.cache c true)
    Move-IsFew u q (waits c r e f g) =
        ground (arith, inv.few, usable-keeps R lib grant quiet s.shared.cache c false)
    Move-IsFew u q (finds c r l e f g) =
        ground (arith, inv.few, usable-keeps R lib grant quiet s.shared.cache c true)
    Move-IsFew u q (asks c d r l e o f g) =
        ground (arith, inv.few, usable-keeps R lib grant quiet s.shared.cache c false)
    Move-IsFew u q (mints reply c r e f g) =
        let (token, kept, granted) =
          take_reply-returns R lib grant quiet reply s.shared.cache c e in
        ground (arith, inv.few, inv.held i r, kept)
    Move-IsFew u q (gets_none reply x c r e f g) = ground (arith, inv.few, inv.held i r)
    Move-IsFew u q (stops_waiting x r f g) = ground (arith, inv.few)
    Move-IsFew u q (stops_minting x r f g) = ground (arith, inv.few, inv.held i r)
