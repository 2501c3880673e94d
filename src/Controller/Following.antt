-- ===== src/Controller/Following.antt =====
-- The socket that the controller listens to, over the calls of src/daemon.ts on each replacement.
use whatsapp_bot.Base.{
  ℕ, List, Option, ◌≡◌, ==_iff, ap, subst, sym, ◌++◌, refl, [], none, some, true, inl, inr, ◌∷◌,
  Bool-cases,
}
use whatsapp_bot.Db.{StateKey, StateValue}
use whatsapp_bot.Db.State.{set}
use whatsapp_bot.Controller.Inbox.{Chat, attach, detach, is_same_socket}

abbrev pub note_state : StateValue → Chat → Chat
note_state value c = record c { db = (set c.now StateKey.controller_state value c.db).1 }

-- What the daemon's listener does with the socket it is told.
unfoldable pub follow : Option ℕ → Chat → Chat
follow none c = note_state StateValue.detached (detach c)
follow (some socket) c = note_state StateValue.attached (attach socket c)

unfoldable pub follow_all : List (Option ℕ) → Chat → Chat
follow_all [] c = c
follow_all (s ∷ ss) c = follow_all ss (follow s c)

abbrev pub listeners_of : Option ℕ → List ℕ
listeners_of none = []
listeners_of (some socket) = socket ∷ []

abbrev pub last_told : Option ℕ → List (Option ℕ) → Option ℕ
last_told socket [] = socket
last_told socket (s ∷ ss) = last_told s ss

-- The socket is attached, and it alone has the listener, once.
pub record Listens (socket : Option ℕ) (c : Chat) : Type 0 where
  pub attached : c.socket ≡ socket
  pub listening : c.listening ≡ listeners_of socket

detach-Listens : (socket : Option ℕ) (c : Chat) → Listens socket c → Listens none (detach c)
unfolding detach
detach-Listens none c h = record { attached = refl; listening = rw (h.attached, h.listening) }
detach-Listens (some s) c h = record {
  attached = refl;
  listening = rw (h.attached, h.listening, (==_iff s s).1 refl);
}

attach-Listens :
    (socket : Option ℕ) (new : ℕ) (c : Chat) → Listens socket c → Listens (some new) (attach new c)
unfolding attach
attach-Listens socket new c h = elim (Bool-cases (is_same_socket new c.socket)) [
  | inl e ↦ rw e (same_socket socket h (rw h.attached at e))
  | inr e ↦ rw e (record {
    attached = refl;
    listening = ap (λ ls. ls ++ new ∷ []) (detach-Listens socket c h).listening;
  })
]
  where
    same_socket : (s : Option ℕ) → Listens s c → is_same_socket new s ≡ true → Listens (some new) c
    same_socket none k e = cc
    same_socket (some t) k e = subst (λ u. Listens (some u) c) (sym ((==_iff new t).0 e)) k

follow-Listens :
    (socket told : Option ℕ) (c : Chat) → Listens socket c → Listens told (follow told c)
unfolding follow
follow-Listens socket none c h =
    let k = detach-Listens socket c h in record { attached = k.attached; listening = k.listening }
follow-Listens socket (some new) c h =
    let k = attach-Listens socket new c h in
    record { attached = k.attached; listening = k.listening }

-- When the controller listens to its socket alone, then after any sequence of replacements it
-- listens to the last socket it was told, once, and to no other; to none after a loss.
pub follow_all-Listens :
    (told : List (Option ℕ)) (socket : Option ℕ) (c : Chat)
    → Listens socket c
    → Listens (last_told socket told) (follow_all told c)
unfolding follow_all
follow_all-Listens [] socket c h = h
follow_all-Listens (s ∷ ss) socket c h =
    follow_all-Listens ss s (follow s c) (follow-Listens socket s c h)
