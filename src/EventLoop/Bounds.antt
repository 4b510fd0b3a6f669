-- ===== src/EventLoop/Bounds.antt =====
-- The loops over recv and send in server/src/lib/event_loop/event_loop.c: they end, and the offset
-- stays within the buffer.
use postman.Prelude.{
  ℕ, zero, suc, ◌+◌, ◌-◌, ◌≤◌, ◌<◌, List, length, length-take, take, drop, false, Bool-cases, ◌==◌,
  Option, none, some, ◌≡◌, refl, ◌∙◌, ◌⊎◌, inl, inr, arith,
}
use postman.EventLoop.Event.{ℤ, disconnected, Event}
use postman.EventLoop.Transfer.{Transferred, done, failed, Ended, write_at, read_loop, write_loop}
use postman.EventLoop.Poll.{is_read, is_disconnected}

Transferred-cases :
    {A : Type 0} (r : Transferred A) → ((a : A) × (r ≡ done a)) ⊎ ((e : ℕ) × (r ≡ failed e))
Transferred-cases (done a) = inl (a, refl)
Transferred-cases (failed e) = inr (e, refl)

-- What the loop leaves of the event `ptr`: its socket, its size and its type, with an offset that
-- has not gone back and is within the size.
pub record Keeps (ptr last : Event) : Type 0 where
  pub socket : last.socket ≡ ptr.socket
  pub size : last.size ≡ ptr.size
  pub type : last.type ≡ ptr.type
  pub error : last.error ≡ ptr.error
  pub forward : ptr.offset ≤ last.offset
  pub bounded : last.offset ≤ ptr.size

Keeps-refl : (ptr : Event) → ptr.offset ≤ ptr.size → Keeps ptr ptr
Keeps-refl ptr h = record {
  socket = refl;
  size = refl;
  type = refl;
  error = refl;
  forward = omega arith;
  bounded = h;
}

Keeps-move :
    (ptr last : Event)
    → last.socket ≡ ptr.socket
    → last.size ≡ ptr.size
    → last.type ≡ ptr.type
    → last.error ≡ ptr.error
    → ptr.offset ≤ last.offset
    → last.offset ≤ ptr.size
    → Keeps ptr last
Keeps-move ptr last a b c d e f = record {
  socket = a;
  size = b;
  type = c;
  error = d;
  forward = e;
  bounded = f;
}

Keeps-trans : (a b c : Event) → Keeps a b → Keeps b c → Keeps a c
Keeps-trans a b c h k = record {
  socket = k.socket ∙ h.socket;
  size = k.size ∙ h.size;
  type = k.type ∙ h.type;
  error = k.error ∙ h.error;
  forward = omega (arith, h.forward, k.forward);
  bounded = omega (arith, h.size, k.bounded);
}

module _ {S : Type 0} where
  -- recv returns at most as many bytes as are asked for.
  abbrev pub IsRecv : (ℤ → ℕ → S → Transferred (List ℕ) × S) → Type 0
  IsRecv recv =
      (s : ℤ) (n : ℕ) (state : S) (chunk : List ℕ)
      → (recv s n state).0 ≡ done chunk
      → length chunk ≤ n

  -- send returns at most the length of the bytes that it is given.
  abbrev pub IsSend : (ℤ → List ℕ → S → Transferred ℕ × S) → Type 0
  IsSend send =
      (s : ℤ) (bytes : List ℕ) (state : S) (n : ℕ)
      → (send s bytes state).0 ≡ done n
      → n ≤ length bytes

  -- The loop has ended, and only a call that failed is no end of a read.
  abbrev pub ReadEnds : Event → Option (Ended S) → Type 0
  ReadEnds ptr o =
      (end : Ended S) × (o ≡ some end)
      × Keeps ptr end.event
      × (is_read end ≡ false → end.last ≡ none)

  abbrev pub WriteEnds : Event → Option (Ended S) → Type 0
  WriteEnds ptr o = (end : Ended S) × (o ≡ some end) × Keeps ptr end.event

  module _ (recv : ℤ → ℕ → S → Transferred (List ℕ) × S) (law : IsRecv recv) where
    pub read_loop-Ends :
        (fuel : ℕ) (ptr : Event) (err : ℕ) (state : S)
        → ptr.offset ≤ ptr.size
        → ptr.size - ptr.offset < fuel
        → ReadEnds ptr (read_loop recv fuel ptr err state)
    unfolding read_loop is_read is_disconnected
    read_loop-Ends zero ptr err state b f = absurd (omega (arith, f))
    read_loop-Ends (suc fuel) ptr err state b f =
        let asked : ℕ = ptr.size - ptr.offset in
        let next : S = (recv ptr.socket asked state).1 in
        elim (Transferred-cases (recv ptr.socket asked state).0) [
          | inr (e, h) ↦
              rw (read_loop, h)
                (
                  record { event = ptr; last = none; errno_value = e; state = next },
                  refl,
                  Keeps-refl ptr b,
                  λ _. refl,
                )
          | inl (chunk, h) ↦
              let moved : Event = record ptr {
                offset = ptr.offset + length chunk;
                buffer = write_at ptr.offset chunk ptr.buffer;
              } in
              let fits : length chunk ≤ asked = law ptr.socket asked state chunk h in
              let keeps : Keeps ptr moved =
                Keeps-move ptr moved refl refl refl refl (omega arith) (omega (arith, fits, b)) in
              elim (Bool-cases (moved.offset == ptr.size)) [
                | inl full ↦
                    rw (read_loop, h, full)
                      (
                        record {
                          event = moved;
                          last = some (length chunk);
                          errno_value = err;
                          state = next;
                        },
                        refl,
                        keeps,
                        λ k. absurd (ground (arith, full, k)),
                      )
                | inr part ↦ elim (Bool-cases (length chunk == 0)) [
                  | inl closed ↦
                      rw (read_loop, h, part, closed)
                        (
                          record {
                            event = record moved { status = disconnected };
                            last = some (length chunk);
                            errno_value = err;
                            state = next;
                          },
                          refl,
                          Keeps-move ptr (record moved { status = disconnected }) refl refl refl
                              refl keeps.forward keeps.bounded,
                          λ k. absurd (ground (arith, k)),
                        )
                  | inr more ↦
                      let (end, p, k, r) =
                        read_loop-Ends fuel moved err next keeps.bounded
                          (ground (arith, f, more, part, fits, b)) in
                      rw (read_loop, h, part, more)
                        (end, p, Keeps-trans ptr moved end.event keeps k, r)
                ]
              ]
        ]

  module _ (send : ℤ → List ℕ → S → Transferred ℕ × S) (law : IsSend send) where
    abbrev asked : Event → List ℕ
    asked ptr = take (ptr.size - ptr.offset) (drop ptr.offset ptr.buffer)

    asked-length : (ptr : Event) → length (asked ptr) ≤ ptr.size - ptr.offset
    asked-length ptr =
        omega (arith, length-take (ptr.size - ptr.offset) (drop ptr.offset ptr.buffer))

    pub write_loop-Ends :
        (fuel : ℕ) (ptr : Event) (err : ℕ) (state : S)
        → ptr.offset ≤ ptr.size
        → ptr.size - ptr.offset < fuel
        → WriteEnds ptr (write_loop send fuel ptr err state)
    unfolding write_loop
    write_loop-Ends zero ptr err state b f = absurd (omega (arith, f))
    write_loop-Ends (suc fuel) ptr err state b f =
        let next : S = (send ptr.socket (asked ptr) state).1 in
        elim (Transferred-cases (send ptr.socket (asked ptr) state).0) [
          | inr (e, h) ↦
              rw (write_loop, h)
                (
                  record { event = ptr; last = none; errno_value = e; state = next },
                  refl,
                  Keeps-refl ptr b,
                )
          | inl (n, h) ↦
              let moved : Event = record ptr { offset = ptr.offset + n } in
              let fits : n ≤ ptr.size - ptr.offset =
                omega (arith, law ptr.socket (asked ptr) state n h, asked-length ptr) in
              let keeps : Keeps ptr moved =
                Keeps-move ptr moved refl refl refl refl (omega arith) (omega (arith, fits, b)) in
              elim (Bool-cases (n == 0)) [
                | inl stuck ↦
                    rw (write_loop, h, stuck)
                      (
                        record { event = ptr; last = some n; errno_value = err; state = next },
                        refl,
                        Keeps-refl ptr b,
                      )
                | inr some_sent ↦ elim (Bool-cases (moved.offset == ptr.size)) [
                  | inl full ↦
                      rw (write_loop, h, some_sent, full)
                        (
                          record { event = moved; last = some n; errno_value = err; state = next },
                          refl,
                          keeps,
                        )
                  | inr part ↦
                      let (end, p, k) =
                        write_loop-Ends fuel moved err next keeps.bounded
                          (ground (arith, f, some_sent, fits, b)) in
                      rw (write_loop, h, some_sent, part)
                        (end, p, Keeps-trans ptr moved end.event keeps k)
                ]
              ]
        ]
