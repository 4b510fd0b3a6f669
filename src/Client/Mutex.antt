-- ===== src/Client/Mutex.antt =====
-- The mutex of `is_contains` in client/src/context/context.c.
use postman.Prelude.{
  ℕ, suc, ◌+◌, ◌%◌, List, [], ◌∷◌, ◌++◌, map, length, bytes_eq, Bool, true, false, Option, some,
  ◌==◌, if◌then◌else◌, choose, ◌≡◌, refl, ap, ◌∙◌, arith,
}
use postman.Client.Network.{Peer}
use postman.Client.Mailbox.{MaildirOtherServer, MailFiles}
use postman.Client.Context.{MultiplexContext}
use postman.Client.Connections.{
  Thread, hangs, passes, then_pass, has_server, any_has_server, is_contains, make_connections,
}

-- A server with mails in the listing, and servers without.
abbrev pub HasMails : MaildirOtherServer → Type 0
HasMails server = (length server.message_full_file_names == 0) ≡ false

abbrev pub AreEmpty : List MaildirOtherServer → Type 0
AreEmpty [] = Unit {0}
AreEmpty (server ∷ servers) =
    ((length server.message_full_file_names == 0) ≡ true) × AreEmpty servers

has_server-found :
    (name : List ℕ) (front back : List MultiplexContext) (c : MultiplexContext)
    → bytes_eq name c.server.server ≡ true
    → has_server name (length (front ++ c ∷ back)) (map some (front ++ c ∷ back)) ≡ passes true
unfolding has_server
has_server-found name [] back c h = rw h refl
has_server-found name (x ∷ front) back c h =
    choose (λ r. r ≡ passes true) (bytes_eq name x.server.server) (passes true) _ refl
      (has_server-found name front back c h)

-- A name that is found keeps the mutex locked.
is_contains-locks :
    (name : List ℕ) (front back : List MultiplexContext) (c : MultiplexContext) (thr : Thread)
    → thr.multiplex_context ≡ map some (front ++ c ∷ back)
    → thr.multiplex_context_size ≡ length (front ++ c ∷ back)
    → bytes_eq name c.server.server ≡ true
    → is_contains name (thr ∷ []) false ≡ passes (true, true)
unfolding is_contains any_has_server
is_contains-locks name front back c thr e s h =
    ap
      (λ r.
        then_pass (then_pass r (λ found. if found then passes true else passes false))
          (λ found. passes (found, found)))
      (ap (λ cells. has_server name thr.multiplex_context_size cells) e
        ∙ ap (λ n. has_server name n (map some (front ++ c ∷ back))) s
        ∙ has_server-found name front back c h)

always_own : (n id : ℕ) → id ≡ 0 → (n % 1 == id) ≡ true
always_own n id h = ground (arith, h)

module _ {D : Type 0} (files : MailFiles D) (connects : List ℕ → D → Option Peer × D)
    (thr : Thread) where
  -- Servers without mails change nothing.
  skipped :
      (idle tail : List MaildirOtherServer) (j i : ℕ) (locked : Bool) (d : D)
      → AreEmpty idle
      → (k : ℕ) × (make_connections files connects [] [] (idle ++ tail) j thr i locked d
          ≡ make_connections files connects [] [] tail k thr i locked d)
  unfolding make_connections
  skipped [] tail j i locked d h = (j, refl)
  skipped (server ∷ idle) tail j i locked d h =
      let (k, e) = skipped idle tail (suc j) i locked d h.1 in (k, rw h.0 e)

  -- With the mutex locked the next server with mails is waited for.
  waits :
      (server : MaildirOtherServer) (servers : List MaildirOtherServer) (j i : ℕ) (d : D)
      → thr.id_thread ≡ 0
      → HasMails server
      → make_connections files connects [] [] (server ∷ servers) j thr i true d ≡ hangs
  unfolding make_connections is_contains
  waits server servers j i d own h = rw (h, always_own (i + j) thr.id_thread own) refl

  goes_by :
      (server : MaildirOtherServer) (servers : List MaildirOtherServer) (j i : ℕ) (d : D)
      → thr.id_thread ≡ 0
      → HasMails server
      → is_contains server.server (thr ∷ []) false ≡ passes (true, true)
      → make_connections files connects [] [] (server ∷ servers) j thr i false d
        ≡ make_connections files connects [] [] servers (suc j) thr i true d
  unfolding make_connections
  goes_by server servers j i d own h k = rw (h, always_own (i + j) thr.id_thread own, k) refl

-- In the only thread of the client, where the listing of the mail directory has a server with
-- mails to which a connection of the thread goes, at any place in its array, and behind it another
-- server with mails, servers without mails before and between them, `make_connections` hangs:
-- `is_contains` leaves the mutex locked when it finds the first, and for the second it waits for
-- ever.
pub make_connections-hangs :
    {D : Type 0} (files : MailFiles D) (connects : List ℕ → D → Option Peer × D) (thr : Thread)
    (front back : List MultiplexContext) (c : MultiplexContext)
    (idle later rest : List MaildirOtherServer) (known other : MaildirOtherServer) (d : D)
    → thr.id_thread ≡ 0
    → thr.multiplex_context ≡ map some (front ++ c ∷ back)
    → thr.multiplex_context_size ≡ length (front ++ c ∷ back)
    → AreEmpty idle
    → HasMails known
    → bytes_eq known.server c.server.server ≡ true
    → AreEmpty later
    → HasMails other
    → make_connections files connects [] []
        (idle ++ known ∷ (later ++ other ∷ rest))
        0
        thr
        0
        false
        d
      ≡ hangs
make_connections-hangs files connects thr front back c idle later rest known other d own cells size
      empty mails same also more =
    let (j, to_known) =
      skipped files connects thr idle (known ∷ (later ++ other ∷ rest)) 0 0 false d empty in
    let (k, to_other) = skipped files connects thr later (other ∷ rest) (suc j) 0 true d also in
    to_known
    ∙ goes_by files connects thr known (later ++ other ∷ rest) j 0 d own mails
        (is_contains-locks known.server front back c thr cells size same)
    ∙ to_other
    ∙ waits files connects thr other rest k 0 d own more
