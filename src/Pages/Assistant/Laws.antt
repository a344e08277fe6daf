-- ===== src/Pages/Assistant/Laws.antt =====
-- What a conversation with the assistant looks like, and what the route's answers become in it.
use mathlib.Core.List.{◌++◌, append_assoc}
use microsvc.Prelude.{
  String, Bool, true, false, Option, none, some, List, [], ◌∷◌, map, Json, str, obj, field, end,
  is_nonempty, get, null, not, ◌||◌, ◌&&◌, str_eq, ◌≡◌, refl, ap, sym, ◌∙◌, arith, Bool-cases, inl,
  inr,
}
use microsvc.Prelude.Lists.{All}
use microsvc.Proxy.{Server, Fetch, Upstream}
use microsvc.Proxy.Assistant.{error, chat, asked}
use microsvc.Proxy.Checks.{chat_fetch}
use microsvc.Proxy.Laws.{RespondLaws}
use microsvc.Pages.Assistant.{
  ChatMessage, user, assistant, Page, question, send_message, reply_of, answered, handle_key_down,
  Step, typed, pressed, clicked, arrived, Reach, start, next, route_answer, asked_and_answered,
}

-- Whether the messages alternate, and whether a question is open behind them, given whether one is
-- open before them.
abbrev pub turn : Bool → List ChatMessage → Option Bool
turn is_open [] = some is_open
turn false (user text ∷ ms) = turn true ms
turn true (user text ∷ ms) = none
turn false (assistant text results ∷ ms) = none
turn true (assistant text results ∷ ms) = turn false ms

abbrev pub questions : List ChatMessage → List String
questions [] = []
questions (user text ∷ ms) = text ∷ questions ms
questions (assistant text results ∷ ms) = questions ms

-- The body that asks for a text.
abbrev pub asking : String → Option Json
asking text = some (obj (field "message" (str text) end))

-- The messages alternate, the reader's first, and the page is loading exactly while the last of them
-- is a question; each question was sent once, in this order, and none is empty.
pub record IsConversation (page : Page) : Type 0 where
  pub turns : turn false page.messages ≡ some page.is_loading
  pub bodies : map (λ (f : Fetch). f.body) page.sent ≡ map asking (questions page.messages)
  pub none_empty : All (λ s. is_nonempty s ≡ true) (questions page.messages)

turn-asked :
    (is_open : Bool) (ms : List ChatMessage) (text : String)
    → turn is_open ms ≡ some false
    → turn is_open (ms ++ user text ∷ []) ≡ some true
turn-asked false [] text h = refl
turn-asked true [] text h = absurd (ground arith)
turn-asked false (user t ∷ ms) text h = turn-asked true ms text h
turn-asked true (user t ∷ ms) text h = absurd (ground arith)
turn-asked false (assistant t r ∷ ms) text h = absurd (ground arith)
turn-asked true (assistant t r ∷ ms) text h = turn-asked false ms text h

-- A message of the assistant.
abbrev is_reply : ChatMessage → Bool
is_reply (user text) = false
is_reply (assistant text results) = true

turn-answered :
    (is_open : Bool) (ms : List ChatMessage) (m : ChatMessage)
    → is_reply m ≡ true
    → turn is_open ms ≡ some true
    → turn is_open (ms ++ m ∷ []) ≡ some false
turn-answered false [] m e h = absurd (ground arith)
turn-answered true [] (user text) e h = absurd (ground arith)
turn-answered true [] (assistant text results) e h = refl
turn-answered false (user t ∷ ms) m e h = turn-answered true ms m e h
turn-answered true (user t ∷ ms) m e h = absurd (ground arith)
turn-answered false (assistant t r ∷ ms) m e h = absurd (ground arith)
turn-answered true (assistant t r ∷ ms) m e h = turn-answered false ms m e h

questions-asked :
    (ms : List ChatMessage) (text : String)
    → questions (ms ++ user text ∷ []) ≡ questions ms ++ text ∷ []
questions-asked [] text = refl
questions-asked (user t ∷ ms) text = ap (λ ts. t ∷ ts) (questions-asked ms text)
questions-asked (assistant t r ∷ ms) text = questions-asked ms text

questions-answered :
    (ms : List ChatMessage) (m : ChatMessage)
    → is_reply m ≡ true
    → questions (ms ++ m ∷ []) ≡ questions ms
questions-answered [] (user text) e = absurd (ground arith)
questions-answered [] (assistant text results) e = refl
questions-answered (user t ∷ ms) m e = ap (λ ts. t ∷ ts) (questions-answered ms m e)
questions-answered (assistant t r ∷ ms) m e = questions-answered ms m e

map-snoc {ℓ κ} :
    {A : Type ℓ} {B : Type κ} (f : A → B) (xs : List A) (x : A)
    → map f (xs ++ x ∷ []) ≡ map f xs ++ f x ∷ []
map-snoc f [] x = refl
map-snoc f (y ∷ xs) x = ap (λ ys. f y ∷ ys) (map-snoc f xs x)

All-snoc {ℓ κ} :
    {A : Type ℓ} (P : A → Type κ) (xs : List A) (x : A) → All P xs → P x → All P (xs ++ x ∷ [])
All-snoc P [] x h p = (p, tt)
All-snoc P (y ∷ xs) x h p = (h.0, All-snoc P xs x h.1 p)

reply_of-is_reply : (answer : Option Json) → is_reply (reply_of answer) ≡ true
unfolding reply_of
reply_of-is_reply none = refl
reply_of-is_reply (some null) = refl
reply_of-is_reply (some _) = ground arith

send_message-IsConversation :
    (trim : String → String) (token : Option String) {page : Page}
    → IsConversation page
    → IsConversation (send_message trim token page)
unfolding send_message
send_message-IsConversation trim token {page} h =
    elim (Bool-cases (not (is_nonempty (trim page.input)) || page.is_loading)) [
      | inl stays ↦ rw stays h
      | inr goes ↦ rw goes (record {
        turns = turn-asked false page.messages (trim page.input) (h.turns ∙ ground arith);
        bodies =
            map-snoc (λ (f : Fetch). f.body) page.sent (question token (trim page.input))
            ∙ ap (λ bs. bs ++ asking (trim page.input) ∷ []) h.bodies
            ∙ sym (map-snoc asking (questions page.messages) (trim page.input))
            ∙ ap (map asking) (sym (questions-asked page.messages (trim page.input)));
        none_empty = rw (questions-asked page.messages (trim page.input)) (
            All-snoc (λ s. is_nonempty s ≡ true) (questions page.messages) (trim page.input)
              h.none_empty (ground arith));
      })
    ]

answered-IsConversation :
    (answer : Option Json) {page : Page}
    → page.is_loading ≡ true
    → IsConversation page
    → IsConversation (answered answer page)
unfolding answered
answered-IsConversation answer {page} waits h =
    let e = questions-answered page.messages (reply_of answer) (reply_of-is_reply answer) in
    record {
      turns =
          turn-answered false page.messages (reply_of answer) (reply_of-is_reply answer)
            (h.turns ∙ ap some waits);
      bodies = h.bodies ∙ ap (map asking) (sym e);
      none_empty = rw e h.none_empty;
    }

Step-IsConversation :
    {trim : String → String} {page after : Page}
    → Step trim page after
    → IsConversation page
    → IsConversation after
unfolding handle_key_down
Step-IsConversation (typed page text) h = record {
  turns = h.turns;
  bodies = h.bodies;
  none_empty = h.none_empty;
}
Step-IsConversation {trim} (pressed page key shift token) h =
    elim (Bool-cases (str_eq key "Enter" && not shift)) [
      | inl sends ↦ rw sends (send_message-IsConversation trim token h)
      | inr other ↦ rw other h
    ]
Step-IsConversation {trim} (clicked page token) h = send_message-IsConversation trim token h
Step-IsConversation (arrived page answer waits) h = answered-IsConversation answer waits h

-- In every conversation that a page can reach, the messages alternate, the reader's first, and the
-- page is loading exactly while the last of them is a question; every question was sent exactly
-- once, in the order of the messages, and none is empty.
pub Reach-IsConversation :
    {trim : String → String} {page : Page} → Reach trim page → IsConversation page
Reach-IsConversation start = record { turns = refl; bodies = refl; none_empty = tt }
Reach-IsConversation (next r st) = Step-IsConversation st (Reach-IsConversation r)

-- What the route makes of a reply of the assistant's service.
abbrev pub service_answer : Option Upstream → Json
service_answer none = error "AI service unavailable"
service_answer (some u) = elim (u.body) [ none ↦ error "AI service unavailable" | some v ↦ v ]

module _ (sv : Server) (laws : RespondLaws sv) where
  route_answer_lem :
      (token : Option String) (text : String)
      → is_nonempty text ≡ true
      → route_answer sv (question token text)
        ≡ some (service_answer (sv.fetch (chat_fetch sv (obj (field "message" (str text) end)))))
  unfolding route_answer chat asked get
  route_answer_lem token text h =
      let body = obj (field "message" (str text) end) in
      ground (
        arith,
        laws.respond_ok (service_answer (sv.fetch (chat_fetch sv body))) 200 (omega arith)
            (omega arith) (omega arith) (omega arith) (omega arith),
        laws.respond_ok (error "AI service unavailable") 503 (omega arith) (omega arith)
            (omega arith) (omega arith) (omega arith),
      )

  -- A question that is not empty, on a page that waits for no answer, adds itself and one reply to
  -- the conversation. The reply is made of the JSON answer of the assistant's service, whatever its
  -- status, and says that the service is unavailable where there is none; the route never refuses
  -- the question.
  pub asked_and_answered_lem :
      (trim : String → String) (token : Option String) (page : Page)
      → page.is_loading ≡ false
      → is_nonempty (trim page.input) ≡ true
      → let text = trim page.input in
        asked_and_answered sv trim token page ≡ record {
          messages =
              page.messages
              ++ (user text
                  ∷ reply_of (
                      some (
                        service_answer
                          (sv.fetch (chat_fetch sv (obj (field "message" (str text) end))))))
                  ∷ []);
          input = "";
          is_loading = false;
          sent = page.sent ++ question token text ∷ [];
        }
  unfolding asked_and_answered send_message answered
  asked_and_answered_lem trim token page idle h =
      simp (route_answer_lem token (trim page.input) h, h, idle, append_assoc)
