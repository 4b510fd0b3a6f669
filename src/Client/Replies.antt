-- ===== src/Client/Replies.antt =====
-- What the handlers of client/src/context/context.c share: that a property of the connection holds
-- where it is kept, and what a request and a reply change of it.
use postman.Prelude.{
  ℕ, ◌+◌, leb, List, [], ◌∷◌, ◌++◌, length, Bool, true, false, ◌||◌, Option, none, some, ◌==◌,
  if◌then◌else◌, choose, ◌≡◌, refl, ap, ◌∙◌,
}
use postman.Text.Concat.{take-length}
use postman.Client.Context.{
  MultiplexContext, Round, HandlerResult, faulted, stays, removed, get_response_to_context,
  with_status, with_message, drop_message, not_success, by_reply, quit,
}
use postman.Client.Letter.{Message}
use postman.Client.Mailbox.{MailFiles, remove_message_server}
use postman.Client.Network.{Peer, Received, lost, line_received, send_loop, send_line, receive_line}
use postman.Client.Smtp.{
  StateCode, smtp_invalid, is_invalid, SmtpContext, send_smtp_request, request, SmtpResponse,
  Answered, fault, exits, answered, parse_response, get_smtp_response, code_length, not_answer,
  undefined_error, is_smtp_4xx_error, is_smtp_5xx_error,
}

-- A socket whose sends take all, with a string behind what was sent.
abbrev pub wired : Peer → List ℕ → Peer
wired peer str = record peer { answers = []; wire = peer.wire ++ str }

send_loop-free :
    (answers : List (Option ℕ)) (message wire : List ℕ)
    → answers ≡ []
    → send_loop message (length message) answers wire ≡ (true, [], wire ++ message)
unfolding send_loop
send_loop-free [] message wire h = ap (λ m. (true, [], wire ++ m)) (take-length message)
send_loop-free (a ∷ answers) message wire h = absurd (cc h)

send_line-free :
    (peer : Peer) (message : List ℕ)
    → peer.answers ≡ []
    → send_line peer message ≡ (true, wired peer message)
unfolding send_line
send_line-free peer message h =
    ap (λ r. (r.0, record peer { answers = r.1; wire = r.2 }))
      (send_loop-free peer.answers message peer.wire h)

send_smtp_request-free :
    (context : SmtpContext) (str : List ℕ)
    → context.socket_desc.answers ≡ []
    → send_smtp_request context str ≡ record context { socket_desc = wired context.socket_desc str }
unfolding send_smtp_request
send_smtp_request-free context str h =
    ap
      (λ r. record {
        socket_desc = r.1;
        state_code = if r.0 then context.state_code else smtp_invalid;
      })
      (send_line-free context.socket_desc str h)

sent_state :
    (b : Bool) (next : StateCode) (c : SmtpContext)
    → b ≡ false
    → (if b then c else record c { state_code = next }) ≡ record c { state_code = next }
sent_state true next c h = absurd (cc h)
sent_state false next c h = refl

-- All that a request leaves of a connection whose sends take all.
pub request-free :
    (next : StateCode) (context : SmtpContext) (str : List ℕ)
    → context.socket_desc.answers ≡ []
    → is_invalid context.state_code ≡ false
    → request next context str
      ≡ record { socket_desc = wired context.socket_desc str; state_code = next }
unfolding request
request-free next context str h v =
    ap (λ c. if is_invalid c.state_code then c else record c { state_code = next })
      (send_smtp_request-free context str h)
    ∙ sent_state (is_invalid context.state_code) next
        (record context { socket_desc = wired context.socket_desc str }) v

-- A reply that is read changes nothing but what is left to read.
abbrev pub Same : SmtpContext → Answered → Type 0
Same context (answered response smtp) =
    (smtp.state_code ≡ context.state_code)
    × (smtp.socket_desc.answers ≡ context.socket_desc.answers)
    × (smtp.socket_desc.wire ≡ context.socket_desc.wire)
Same context _ = Unit {0}

parse_response-Same :
    (stack : List ℕ) (context c : SmtpContext) (buffer : List ℕ)
    → (r : SmtpResponse) → Same context (answered r c)
    → Same context (parse_response stack c buffer)
unfolding parse_response
parse_response-Same stack context c buffer r h =
    let i = code_length 3 buffer in
    choose (Same context) (leb i (length buffer)) _ _ h
      (choose (Same context) (length buffer + 1 == i) fault exits tt tt)

read_response-Same :
    (stack : List ℕ) (context : SmtpContext) (r : Received)
    → Same context (elim r [
      | Received.fault ↦ fault
      | lost rest ↦
          answered
            (record { status_code = undefined_error; message = none })
            (record context { socket_desc = record context.socket_desc { input = rest } })
      | line_received buffer rest ↦
          parse_response stack
            (record context { socket_desc = record context.socket_desc { input = rest } })
            buffer
    ])
read_response-Same stack context Received.fault = tt
read_response-Same stack context (lost rest) = (refl, refl, refl)
read_response-Same stack context (line_received buffer rest) =
    parse_response-Same stack context _ buffer
      (record { status_code = undefined_error; message = none }) (refl, refl, refl)

pub get_response_to_context-Same :
    (round : Round) (context : MultiplexContext)
    → Same context.smtp_context (get_response_to_context round context)
unfolding get_response_to_context get_smtp_response
get_response_to_context-Same round context =
    choose (Same context.smtp_context) round.is_ready_for_read _ _
      (read_response-Same round.stack context.smtp_context
        (receive_line context.smtp_context.socket_desc.input))
      (refl, refl, refl)

module _ {D : Type 0} (files : MailFiles D) where
  -- A property of the connection and the disk, where the handler keeps the connection.
  abbrev pub Keeps : (MultiplexContext → D → Type 0) → HandlerResult D → Type 0
  Keeps P (stays context d) = P context d
  Keeps P _ = Unit {0}

  pub with_status-Keeps :
      (P : MultiplexContext → D → Type 0) (a : Answered) (context : MultiplexContext)
      (go : ℕ → MultiplexContext → HandlerResult D)
      → Same context.smtp_context a
      → ((status : ℕ) (smtp : SmtpContext)
          → (smtp.state_code ≡ context.smtp_context.state_code)
          → (smtp.socket_desc.answers ≡ context.smtp_context.socket_desc.answers)
          → (smtp.socket_desc.wire ≡ context.smtp_context.socket_desc.wire)
          → Keeps P (go status (record context { smtp_context = smtp })))
      → Keeps P (with_status a context go)
  unfolding with_status
  with_status-Keeps P fault context go s h = tt
  with_status-Keeps P exits context go s h = tt
  with_status-Keeps P (answered r smtp) context go (a, b, c) h = h r.status_code smtp a b c

  some_message-Keeps :
      (P : MultiplexContext → D → Type 0) (o : Option Message) (go : Message → HandlerResult D)
      → ((mes : Message) → o ≡ some mes → Keeps P (go mes))
      → Keeps P (elim o [ none ↦ faulted | some mes ↦ go mes ])
  some_message-Keeps P none go h = tt
  some_message-Keeps P (some mes) go h = h mes refl

  pub with_message-Keeps :
      (P : MultiplexContext → D → Type 0) (context : MultiplexContext)
      (go : Message → HandlerResult D)
      → ((mes : Message) → context.select_message ≡ some mes → Keeps P (go mes))
      → Keeps P (with_message context go)
  unfolding with_message
  with_message-Keeps P context go h = some_message-Keeps P context.select_message go h

  dropped-Keeps :
      (P : MultiplexContext → D → Type 0) (context : MultiplexContext) (d : D) (o : Option Message)
      → Keeps P (elim o [
        | none ↦ removed context d
        | some mes ↦
            let (server, d') = remove_message_server files context.server mes d in
            removed (record context { server = server }) d'
      ])
  dropped-Keeps P context d none = tt
  dropped-Keeps P context d (some mes) = tt

  not_success-Keeps :
      (P : MultiplexContext → D → Type 0) (status : ℕ) (context : MultiplexContext) (d : D)
      → P context d
      → Keeps P (not_success files status context d)
  unfolding not_success drop_message
  not_success-Keeps P status context d h =
      choose (Keeps P) (is_smtp_4xx_error status || status == undefined_error) _ _
        (with_message-Keeps P context (λ _. removed (quit context) d) (λ mes e. tt))
        (choose (Keeps P) (is_smtp_5xx_error status) _ (stays context d)
          (dropped-Keeps P (quit context) d context.select_message) h)

  pub by_reply-Keeps :
      (P : MultiplexContext → D → Type 0) (is_success : ℕ → Bool) (status : ℕ)
      (context : MultiplexContext) (d : D) (go : MultiplexContext → HandlerResult D)
      → P context d
      → P (record context { status_code = status }) d
      → Keeps P (go (record context { status_code = status }))
      → Keeps P (by_reply files is_success status context d go)
  unfolding by_reply
  by_reply-Keeps P is_success status context d go h n g =
      let noted = record context { status_code = status } in
      choose (Keeps P) (status == not_answer) (stays context d) _ h (
        choose (Keeps P) (is_success status) (go noted) (not_success files status noted d) g
          (not_success-Keeps P status noted d n))
