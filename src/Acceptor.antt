-- ===== src/Acceptor.antt =====
-- communication/net/Acceptor.cpp: the listening socket, and the spare descriptor that it gives up
-- for a moment when the process has no other. `none` is a failed assertion or a fatal log entry of
-- `Socket::accept`.
mod Tests
use toy_basket.Prelude.{
  ℕ, ◌+◌, List, [], ◌∷◌, ◌++◌, Bool, true, false, Option, none, some, if◌then◌else◌, ◌≡◌, refl, sym,
  ap, subst, ◌∙◌, length, length-append, arith, some_injective,
}

-- `opened` are the descriptors that the acceptor got from `accept` or `open`, `closed` those that it
-- closed, and `handed` those that it gave to the callback. `idle_fd` is `none` for -1.
pub record Acceptor : Type 0 where
  pub listening : Bool
  pub reading : Bool
  pub has_callback : Bool
  pub idle_fd : Option ℕ
  pub opened : List ℕ
  pub closed : List ℕ
  pub handed : List ℕ

-- The constructor, with what opening /dev/null gives.
pub new_acceptor : Option ℕ → Option Acceptor
new_acceptor none = none
new_acceptor (some fd) = some (record {
  listening = false;
  reading = false;
  has_callback = false;
  idle_fd = some fd;
  opened = fd ∷ [];
  closed = [];
  handed = [];
})

pub listen : Acceptor → Acceptor
listen a = record a { listening = true; reading = true }

abbrev pub fds : Option ℕ → List ℕ
fds none = []
fds (some fd) = fd ∷ []

-- `newConnectionCallback_`, or `close`.
abbrev pub hand_over : Acceptor → ℕ → Acceptor
hand_over a connfd =
    if a.has_callback
    then record a { opened = a.opened ++ connfd ∷ []; handed = a.handed ++ connfd ∷ [] }
    else record a { opened = a.opened ++ connfd ∷ []; closed = a.closed ++ connfd ∷ [] }

-- The spare descriptor makes room for a connection, which is closed at once; `accepted` is what the
-- second `accept` gives, and `reopened` what opening /dev/null gives.
pub make_room : Acceptor → Option ℕ → Option ℕ → Acceptor
make_room a accepted reopened = record a {
  closed = (a.closed ++ fds a.idle_fd) ++ fds accepted;
  opened = (a.opened ++ fds accepted) ++ fds reopened;
  idle_fd = reopened;
}

-- What `Socket::accept` answers: a descriptor, or -1 with EMFILE, with another error that it
-- expects, or with one that it does not.
pub data Accept : Type 0 where
  connection : ℕ → Accept
  emfile expected unexpected : Accept

pub handle_read : Acceptor → Accept → Option ℕ → Option ℕ → Option Acceptor
handle_read a (connection connfd) accepted reopened = some (hand_over a connfd)
handle_read a emfile accepted reopened = some (make_room a accepted reopened)
handle_read a expected accepted reopened = some a
handle_read a unexpected accepted reopened = none

-- Every descriptor that was opened is closed, handed over, or the spare one.
abbrev pub IsBalanced : Acceptor → Type 0
IsBalanced a = length a.opened ≡ length a.closed + length a.handed + length (fds a.idle_fd)

hand_over-IsBalanced : (a : Acceptor) (connfd : ℕ) → IsBalanced a → IsBalanced (hand_over a connfd)
hand_over-IsBalanced a connfd b = by_callback a.has_callback
  where
    by_callback :
        (t : Bool)
        → IsBalanced (
            if t
            then record a { opened = a.opened ++ connfd ∷ []; handed = a.handed ++ connfd ∷ [] }
            else record a { opened = a.opened ++ connfd ∷ []; closed = a.closed ++ connfd ∷ [] })
    by_callback true =
        omega (arith, b, length-append a.opened (connfd ∷ []), length-append a.handed (connfd ∷ []))
    by_callback false =
        omega (arith, b, length-append a.opened (connfd ∷ []), length-append a.closed (connfd ∷ []))

-- `handleRead` keeps, on every answer of `accept` that it survives and also when no spare descriptor
-- can be opened again, that the descriptors opened are as many as those closed, those handed over
-- and the spare one.
pub handle_read-IsBalanced :
    (a a' : Acceptor) (answer : Accept) (accepted reopened : Option ℕ)
    → IsBalanced a
    → handle_read a answer accepted reopened ≡ some a'
    → IsBalanced a'
unfolding handle_read make_room
handle_read-IsBalanced a a' (connection connfd) accepted reopened b e =
    subst IsBalanced (some_injective e) (hand_over-IsBalanced a connfd b)
handle_read-IsBalanced a a' emfile accepted reopened b e = subst IsBalanced (some_injective e) (
    omega (
      arith,
      b,
      length-append (a.closed ++ fds a.idle_fd) (fds accepted),
      length-append a.closed (fds a.idle_fd),
      length-append (a.opened ++ fds accepted) (fds reopened),
      length-append a.opened (fds accepted),
    ))
handle_read-IsBalanced a a' expected accepted reopened b e = subst IsBalanced (some_injective e) b
handle_read-IsBalanced a a' unexpected accepted reopened b e = cc
