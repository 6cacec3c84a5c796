-- ===== src/Events/Converters/ChatActions/Actors.antt =====
-- Whom a chat action is about.
use telegram_mcub_go.Base.{List, [], ◌∷◌, Option, none, some, ℤ, ◌≡◌, ◌⊎◌}
use telegram_mcub_go.Events.Update.{Update}
use telegram_mcub_go.Events.Event.{
  ActionType, user_joined, user_left, user_kicked, user_invited, ChatAction,
}

-- The first of the users, if any, is the one named.
abbrev pub Leads : ℤ → List ℤ → Type 0
Leads user_id users = (users ≡ []) ⊎ ((rest : List ℤ) × (users ≡ user_id ∷ rest))

-- A join or an invitation names the first of its users; a removal has the one user it names.
abbrev pub IsAbout : ActionType → ℤ → List ℤ → Type 0
IsAbout user_joined user_id users = Leads user_id users
IsAbout user_invited user_id users = Leads user_id users
IsAbout user_left user_id users = users ≡ user_id ∷ []
IsAbout user_kicked user_id users = users ≡ user_id ∷ []
IsAbout _ user_id users = Unit

abbrev Coherent : ChatAction → Type 0
Coherent a = IsAbout a.action_type a.user_id a.user_ids

abbrev Every : {A : Type 0} → (A → Type 0) → Option A → Type 0
Every P none = Unit
Every P (some a) = P a
