-- ===== src/Extensions/Chat/Sessions.antt =====
-- The sessions of backend/extensions/chat.py: what the calls do to them, and their life cycle.
use qu_mail.Prelude.{
  ℕ, Option, String, List, ◌≡◌, str_eq, Bool-cases, eq_refl, ◌∷◌, inl, if◌then◌else◌, false, none,
  [], ap, subst, refl, sym, eq_iff, ◌∙◌, inr,
}
use qu_mail.Dict.{lookup, lookup-insert, lookup-nil}
use qu_mail.Extensions.Base.{SecurityLevel, Message}
use qu_mail.Extensions.Chat.{
  ChatSession, ChatExtension, create_session, get_session, change_session, closed, with_message,
  close_session, add_message, cleanup, Option, String, List, some, ◌∷◌, false,
}

abbrev pub changed : (ChatSession → ChatSession) → Option ChatSession → Option ChatSession
changed f none = none
changed f (some session) = some (f session)

pub lookup-change :
    (f : ChatSession → ChatSession) (k j : String) (c : ChatExtension) (o : Option ChatSession)
    → lookup k c.sessions ≡ o
    → lookup j (change_session f k c o).sessions
      ≡ (if str_eq k j then changed f o else lookup j c.sessions)
lookup-change f k j c none e = elim (Bool-cases (str_eq k j)) [
  | inl same ↦ rw same (ap (λ i. lookup i c.sessions) (sym ((eq_iff k j).0 same)) ∙ e)
  | inr other ↦ rw other refl
]
lookup-change f k j c (some session) e = lookup-insert k j (f session) c.sessions

-- The calls on the extension, with what they draw.
pub data Call : Type 0 where
  create : String → ℕ → String → SecurityLevel → Call
  close : String → Call
  send : String → Message → Call
  clean : Call

unfoldable pub call : Call → ChatExtension → ChatExtension
call (create uuid now peer level) c = (create_session uuid now peer level c).1
call (close k) c = close_session k c
call (send k m) c = add_message m k c
call clean c = cleanup c

unfoldable pub run : List Call → ChatExtension → ChatExtension
run [] c = c
run (x ∷ xs) c = run xs (call x c)

-- No call makes a session with the id.
abbrev pub Spares : String → List Call → Type 0
Spares k [] = Unit
Spares k (create uuid now peer level ∷ xs) = (str_eq uuid k ≡ false) × Spares k xs
Spares k (close j ∷ xs) = Spares k xs
Spares k (send j m ∷ xs) = Spares k xs
Spares k (clean ∷ xs) = Spares k xs

-- The session with the id is closed or gone.
abbrev pub Ended : Option ChatSession → Type 0
Ended none = Unit
Ended (some session) = session.is_active ≡ false

closed-Ended : (o : Option ChatSession) → Ended (changed closed o)
closed-Ended none = tt
closed-Ended (some session) = refl

sent-Ended : (m : Message) (o : Option ChatSession) → Ended o → Ended (changed (with_message m) o)
sent-Ended m none h = tt
sent-Ended m (some session) h = h

change-Ended :
    (f : ChatSession → ChatSession) (k j : String) (c : ChatExtension)
    → ((o : Option ChatSession) → Ended o → Ended (changed f o))
    → Ended (lookup j c.sessions)
    → Ended (lookup j (change_session f k c (lookup k c.sessions)).sessions)
change-Ended f k j c keeps h =
    rw (lookup-change f k j c (lookup k c.sessions) refl) (elim (Bool-cases (str_eq k j)) [
      | inl same ↦
          rw same (keeps _ (subst (λ i. Ended (lookup i c.sessions)) (sym ((eq_iff k j).0 same)) h))
      | inr other ↦ rw other h
    ])

call-Ended :
    (x : Call) (xs : List Call) (k : String) (c : ChatExtension)
    → Spares k (x ∷ xs)
    → Ended (lookup k c.sessions)
    → Ended (lookup k (call x c).sessions) × Spares k xs
unfolding call create_session close_session add_message cleanup
call-Ended (create uuid now peer level) xs k c (other, spares) h =
    (rw lookup-insert (rw other h), spares)
call-Ended (close j) xs k c spares h = (change-Ended closed j k c (λ o _. closed-Ended o) h, spares)
call-Ended (send j m) xs k c spares h =
    (change-Ended (with_message m) j k c (sent-Ended m) h, spares)
call-Ended clean xs k c spares h = (rw lookup-nil tt, spares)

run-Ended :
    (xs : List Call) (k : String) (c : ChatExtension)
    → Spares k xs
    → Ended (lookup k c.sessions)
    → Ended (lookup k (run xs c).sessions)
unfolding run
run-Ended [] k c spares h = h
run-Ended (x ∷ xs) k c spares h =
    let (h', spares') = call-Ended x xs k c spares h in run-Ended xs k (call x c) spares' h'

-- A session that was closed stays closed: whatever calls follow that make no session with its id, it is
-- found inactive or not at all.
pub closed_stays_closed :
    (xs : List Call) (k : String) (c : ChatExtension)
    → Spares k xs
    → Ended (get_session k (run xs (close_session k c)))
unfolding get_session close_session
closed_stays_closed xs k c spares =
    run-Ended xs k _ spares
      (rw (lookup-change closed k k c (lookup k c.sessions) refl) (rw eq_refl (closed-Ended _)))
