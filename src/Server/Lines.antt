-- ===== src/Server/Lines.antt =====
-- Lines that arrive whole, in part, or one byte at a time: `handler_read` of
-- server/src/lib/server/server.c.
use postman.Prelude.{ℕ, ◌<◌, ◌≤◌, List, ◌++◌, length, take, some, ◌≡◌, sym, ap, ◌∙◌}
use mathlib.Core.Path.{subst}
use postman.Vector.{Vector}
use postman.Vector.Growth.{IsValid, push_all-Appended}
use postman.Text.Search.{crlf, Lacks}
use postman.EventLoop.Event.{ℤ, connected}
use postman.Smtp.Regex.{Matcher}
use postman.Maildir.{FileSystem}
use postman.Server.Users.{UserContext, UsersList, user_find_by_sock}
use postman.Server.Access.{user_of}
use postman.Server.State.{Configuration, Server}
use postman.Server.Reply.{handler_smtp}
use postman.Server.Handlers.{touch, read_next}
use postman.Server.Read.{fault, served, received, read_user, handler_read}
use postman.Server.Turn.{replied}
use postman.Server.Whole.{read_all, read_all-line, read_all-part, read_all-short}

module _ {D : Type 0} (fs : FileSystem D) (config : Configuration) (now : ℕ) (regexec : Matcher)
    (srv : Server D) (sock : ℤ) (buffer : List ℕ) (size : ℕ) (u : UserContext)
    (k : user_of srv.users sock ≡ some u) (w : IsValid u.buffer) where
  abbrev rest : UsersList
  rest = (user_find_by_sock srv.users sock).1

  -- The bytes join those that the user's buffer holds.
  filled :
      (v : Vector ℕ) × (v.array ≡ u.buffer.array ++ take size buffer)
      × IsValid v
      × (handler_read fs config now regexec srv sock buffer size connected
          ≡ read_all fs config now regexec (touch now srv sock) sock (record u { buffer = v }) rest)
  unfolding handler_read read_user received user_find_by_sock
  filled =
      let (v, e, p, hv) = push_all-Appended u.buffer (take size buffer) w in
      (
        v,
        p,
        hv,
        ap
              (λ a.
                read_user fs config now regexec (touch now srv sock) sock a rest (take size buffer))
              k
            ∙ ap (received fs config now regexec (touch now srv sock) sock u rest) e,
      )

  -- For a user that is not being served and has a sound buffer: if the bytes of the buffer and
  -- those that were read are one line with CRLF at its end and neither a CR nor a zero before,
  -- then `handler_read` hands the line to `handler_smtp` once and does with its result what
  -- `replied` says: the reply is written, or without one the next bytes are read.
  pub handler_read-line :
      (line : List ℕ)
      → u.buffer.array ++ take size buffer ≡ line ++ crlf
      → Lacks 0x0d line
      → Lacks 0 line
      → (v : Vector ℕ) × (v.array ≡ line ++ crlf)
        × (handler_read fs config now regexec srv sock buffer size connected
            ≡ replied now
                (touch now srv sock)
                sock
                rest
                (handler_smtp fs config regexec (record u { buffer = v }) srv.disk (line ++ crlf)))
  unfolding touch
  handler_read-line line e h z =
      let (v, p, hv, r) = filled in
      (
        v,
        p ∙ e,
        r
            ∙ read_all-line fs config now regexec (touch now srv sock) sock
                (record u { buffer = v }) rest line hv (p ∙ e) h z,
      )

  -- For a user that is not being served and has a sound buffer: if the bytes of the buffer and
  -- those that were read have no CR and are two at least, then `handler_read` keeps all of them in
  -- the buffer and registers the next read.
  pub handler_read-part :
      Lacks 0x0d (u.buffer.array ++ take size buffer)
      → 2 ≤ length (u.buffer.array ++ take size buffer)
      → (v : Vector ℕ) × (v.array ≡ u.buffer.array ++ take size buffer)
        × IsValid v
        × (handler_read fs config now regexec srv sock buffer size connected
            ≡ served (
                touch now
                  (read_next (touch now srv sock) sock (record u { buffer = v }) rest)
                  sock))
  handler_read-part h two =
      let (v, p, hv, r) = filled in
      (
        v,
        p,
        hv,
        r
            ∙ read_all-part fs config now regexec (touch now srv sock) sock
                (record u { buffer = v }) rest (subst (Lacks 0x0d) (sym p) h)
                (subst (λ x. 2 ≤ length x) (sym p) two),
      )

  -- For a user that is not being served and has a sound buffer: if the bytes of the buffer and
  -- those that were read are fewer than two, then `handler_read` reads before the buffer.
  pub handler_read-short :
      length (u.buffer.array ++ take size buffer) < 2
      → handler_read fs config now regexec srv sock buffer size connected ≡ fault
  handler_read-short short =
      let (v, p, hv, r) = filled in
      r
      ∙ read_all-short fs config now regexec (touch now srv sock) sock (record u { buffer = v })
          rest (subst (λ x. length x < 2) (sym p) short)
