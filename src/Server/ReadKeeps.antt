-- ===== src/Server/ReadKeeps.antt =====
-- `handler_read` of server/src/lib/server/server.c keeps users and timers in pairs.
use postman.Prelude.{
  ℕ, zero, suc, List, length, take, Bool, true, false, Bool-cases, Option, none, some, ltb, ◌≡◌,
  refl, sym, ap, ◌∙◌, inl, inr,
}
use mathlib.Core.Path.{subst}
use postman.Vector.{Vector, push_all}
use postman.Vector
use postman.Text.Search.{SubStrIterator, sub_str_iterate}
use postman.EventLoop.Event.{ℤ, ClientStatus, connected, disconnected}
use postman.Smtp.Regex.{Matcher}
use postman.Smtp.State.{SmtpState, SmtpStatus, ok, warning, continue, data_end, exit}
use postman.Maildir.{FileSystem, Ending, fault, failed, done}
use postman.Server.Users.{UserContext, UserAccessor, user_find_by_sock}
use postman.Server.Access.{user_of-socket}
use postman.Server.Paired.{release-Paired, update-Paired}
use postman.Server.State.{Configuration, Server, async_write}
use postman.Server.Reply.{
  Pair, Handling, mail_sent, after_mail, by_status, after_parse, handler_smtp,
}
use postman.Server.Handlers.{touch, read_next}
use postman.Server.Keeps.{
  IsPaired, Found, rest_of, user_disconnected-IsPaired, read_next-IsPaired, touch-IsPaired,
}
use postman.Server.Read.{
  served, after_line, after_part, handle_line, read_lines, received, read_user, handler_read,
  start_of,
}
use postman.Server.Turn.{lost, part, last, again, turn}

pub served_injective : {D : Type 0} {s t : Server D} → served s ≡ served t → s ≡ t
served_injective e = cc

-- The socket of the user that a call gives, or another one where it gives none.
socket_of : {D : Type 0} → ℤ → Handling D → ℤ
socket_of s none = s
socket_of s (some (u, d, p)) = u.socket

module _ {D : Type 0} (fs : FileSystem D) (config : Configuration) where
  mail_sent-socket :
      (user : UserContext) (r : Ending D (Bool × SmtpState))
      → socket_of user.socket (mail_sent user r) ≡ user.socket
  unfolding mail_sent socket_of
  mail_sent-socket user fault = refl
  mail_sent-socket user (failed _ _ d) = refl
  mail_sent-socket user (done (true, smtp) d) = refl
  mail_sent-socket user (done (false, smtp) d) = refl

  by_status-socket :
      (user : UserContext) (disk : D) (smtp : SmtpState) (st : SmtpStatus)
      → socket_of user.socket (by_status fs config user disk smtp st) ≡ user.socket
  unfolding by_status after_mail socket_of
  by_status-socket user disk smtp ok = refl
  by_status-socket user disk smtp warning = refl
  by_status-socket user disk smtp continue = refl
  by_status-socket user disk smtp data_end = mail_sent-socket user _
  by_status-socket user disk smtp exit = refl
  by_status-socket user disk smtp SmtpStatus.error = refl

  after_parse-socket :
      (user : UserContext) (disk : D) (o : Option (SmtpState × SmtpStatus))
      → socket_of user.socket (after_parse fs config user disk o) ≡ user.socket
  unfolding after_parse socket_of
  after_parse-socket user disk none = refl
  after_parse-socket user disk (some (smtp, st)) = by_status-socket user disk smtp st

  handle_line-socket :
      (now : ℕ) (regexec : Matcher) (user u : UserContext) (disk d : D) (p : Pair)
      (it : SubStrIterator)
      → handle_line fs config now regexec user disk it ≡ some (u, d, p)
      → u.socket ≡ user.socket
  unfolding handle_line handler_smtp socket_of
  handle_line-socket now regexec user u disk d p it e =
      sym (ap (socket_of user.socket) e) ∙ elim (Bool-cases (ltb it.end user.buffer.allocated)) [
        | inl f ↦ rw f (after_parse-socket user disk _)
        | inr f ↦ rw f refl
      ]

module _ {D : Type 0} (now : ℕ) (srv next : Server D) (sock : ℤ) (u v : UserContext)
    (k : Found srv sock (some u)) (p : v.socket ≡ sock) (h : IsPaired srv) where
  read_again :
      (w : UserContext)
      → w.socket ≡ sock
      → IsPaired (touch now (read_next srv sock w (rest_of srv sock)) sock)
  read_again w q =
      touch-IsPaired now (read_next srv sock w (rest_of srv sock)) sock
        (read_next-IsPaired srv sock u w k q h)

  after_line-IsPaired :
      (reply : Option (List ℕ)) → IsPaired (after_line now srv sock v (rest_of srv sock) reply)
  unfolding after_line async_write touch
  after_line-IsPaired none = read_again (record v { buffer = Vector.clear v.buffer }) p
  after_line-IsPaired (some reply) = update-Paired _ srv.timers now sock (
      release-Paired srv.users srv.timers sock u (record v { buffer = Vector.clear v.buffer }) k p
        h)

  after_part-IsPaired :
      (o : Option (Vector ℕ))
      → after_part now srv sock v (rest_of srv sock) o ≡ served next
      → IsPaired next
  unfolding after_part
  after_part-IsPaired none e = absurd (cc e)
  after_part-IsPaired (some w) e =
      subst IsPaired (served_injective e) (read_again (record v { buffer = w }) p)

module _ {D : Type 0} (fs : FileSystem D) (config : Configuration) (now : ℕ) (regexec : Matcher)
    (next : Server D) (sock : ℤ) (u : UserContext) where
  read_lines-IsPaired :
      (srv : Server D) (v : UserContext) (it : SubStrIterator) (fuel : ℕ)
      → Found srv sock (some u)
      → v.socket ≡ sock
      → IsPaired srv
      → read_lines fs config now regexec fuel srv sock v (rest_of srv sock) it ≡ served next
      → IsPaired next
  unfolding read_lines
  read_lines-IsPaired srv v it zero k p h e = absurd (cc e)
  read_lines-IsPaired srv v it (suc fuel) k p h e =
      elim (turn fs config now regexec srv sock v (rest_of srv sock) it fuel) [
        | lost f ↦ absurd (cc (sym e ∙ f))
        | part a f ↦ after_part-IsPaired now srv next sock u v k p h _ (sym f ∙ e)
        | last w disk pair (a, b) f ↦ subst IsPaired (served_injective (sym f ∙ e)) (
            after_line-IsPaired now (record srv { disk = disk }) next sock u w k
              (handle_line-socket fs config now regexec v w srv.disk disk pair
                  (sub_str_iterate it).0 b
                ∙ p)
              h pair.buffer)
        | again w disk pair (a, b) s n f ↦
            read_lines-IsPaired (record srv { disk = disk }) w (sub_str_iterate it).0 fuel k
              (handle_line-socket fs config now regexec v w srv.disk disk pair
                  (sub_str_iterate it).0 b
                ∙ p)
              h (sym f ∙ e)
      ]

  received-IsPaired :
      (srv : Server D) (o : Option (Vector ℕ))
      → Found srv sock (some u)
      → IsPaired srv
      → received fs config now regexec srv sock u (rest_of srv sock) o ≡ served next
      → IsPaired next
  unfolding received
  received-IsPaired srv none k h e = absurd (cc e)
  received-IsPaired srv (some v) k h e =
      read_lines-IsPaired srv (record u { buffer = v }) (start_of (record u { buffer = v }))
        (suc (length v.array)) k (user_of-socket srv.users sock u k) h e

module _ {D : Type 0} (fs : FileSystem D) (config : Configuration) (now : ℕ) (regexec : Matcher)
    (srv next : Server D) (sock : ℤ) where
  read_user-IsPaired :
      (a : UserAccessor) (bs : List ℕ)
      → Found srv sock a
      → IsPaired srv
      → read_user fs config now regexec srv sock a (rest_of srv sock) bs ≡ served next
      → IsPaired next
  unfolding read_user
  read_user-IsPaired none bs k h e = subst IsPaired (served_injective e) h
  read_user-IsPaired (some u) bs k h e =
      received-IsPaired fs config now regexec next sock u srv (push_all u.buffer bs) k h e

module _ {D : Type 0} (fs : FileSystem D) (config : Configuration) (now : ℕ) (regexec : Matcher)
    (srv next : Server D) (sock : ℤ) where
  pub handler_read-IsPaired :
      (buffer : List ℕ) (size : ℕ) (status : ClientStatus)
      → IsPaired srv
      → handler_read fs config now regexec srv sock buffer size status ≡ served next
      → IsPaired next
  unfolding handler_read touch user_find_by_sock
  handler_read-IsPaired buffer size disconnected h e =
      subst IsPaired (served_injective e) (user_disconnected-IsPaired srv sock h)
  handler_read-IsPaired buffer size connected h e =
      read_user-IsPaired fs config now regexec (touch now srv sock) next sock
        (user_find_by_sock srv.users sock).0 (take size buffer) refl (touch-IsPaired now srv sock h)
        e
