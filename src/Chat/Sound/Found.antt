-- ===== src/Chat/Sound/Found.antt =====
-- A match that the parser finds: it is short, and a script waits for it if it comes from a script.
use modem_modules.Base.{
  ℕ, ◌<◌, ◌≡◌, refl, ◌⊎◌, true, Option, none, some, List, [], ◌∷◌, length, arith, inl, inr, take,
  ◌==◌, ◌&&◌,
}
use modem_modules.Base.Gives.{Always, Always-if, Gives}
use modem_modules.Chat.{Chat, Match, MatchType, Script, response_match, abort_match, unsol_match}
use modem_modules.Chat.Engine.{is_some}
use modem_modules.Chat.Parse.{
  find_in, find_match, find_empty, find_catch_all_match, or_else, typed, matches_received,
}
use modem_modules.Chat.Sound.{IsServed, IsShort, AreShort, Fits, Serves, Awaits}

find_in-IsShort :
    (size : ℕ) (bs : List ℕ) (ms : List Match)
    → AreShort size ms
    → Always (λ m. IsShort size m × (length m.match ≡ length bs)) (find_in ms bs)
find_in-IsShort size bs [] h = tt
find_in-IsShort size bs (m ∷ ms) h =
    Always-if _ ((length m.match == length bs) && matches_received m.wildcards m.match bs) _ _
      (λ t. (h.0, ground arith)) (λ f. find_in-IsShort size bs ms h.1)

Always-typed :
    (P : Match × MatchType → Type 0) (t : MatchType) (o : Option Match)
    → Always (λ m. P (m, t)) o
    → Always P (typed t o)
Always-typed P t none h = tt
Always-typed P t (some m) h = h

Always-or_else {ℓ} :
    {A : Type ℓ} (P : A → Type 0) (o o' : Option A)
    → Always P o
    → Always P o'
    → Always P (or_else o o')
Always-or_else P none o' h h' = h'
Always-or_else P (some a) o' h h' = h

Always-with :
    {A : Type 0} (P Q : A → Type 0) (o : Option A)
    → Always P o
    → ((a : A) → Q a)
    → Always (λ a. P a × Q a) o
Always-with P Q none h q = tt
Always-with P Q (some a) h q = (h, q a)

-- A script runs, or there are no matches but the unsolicited ones.
served_or_bare :
    (size : ℕ) (script : Option Script) (it : ℕ) (rs as' : List Match)
    → Serves size script it rs as'
    → ((is_some script ≡ true) × AreShort size rs × AreShort size as') ⊎ ((rs ≡ []) × (as' ≡ []))
served_or_bare size none it rs as' h = inr h
served_or_bare size (some s) it rs as' h = inl (refl, h.1, h.2)

-- What is left of the script once it runs.
pub running :
    (size : ℕ) (script : Option Script) (it : ℕ) (rs as' : List Match)
    → Serves size script it rs as'
    → is_some script ≡ true
    → Gives (λ s. (it < length s.script_chats) × Fits size s) script × AreShort size as'
running size none it rs as' h e = absurd (ground arith)
running size (some s) it rs as' h e = ((h.0, h.3), h.2)

-- A search that finds nothing among no matches.
module _ (size : ℕ) (P : Match → Type 0) (f : List Match → Option Match) (nothing : f [] ≡ none)
    (finds : (ms : List Match) → AreShort size ms → Always P (f ms)) where
  search_lists :
      (script : Option Script) (it : ℕ) (rs as' us : List Match)
      → Serves size script it rs as'
      → AreShort size us
      → Always
          (λ (m, t). P m × Awaits (some m) t script)
          (or_else
            (typed response_match (f rs))
            (or_else (typed abort_match (f as')) (typed unsol_match (f us))))
  search_lists script it rs as' us h short =
      let Q : Match × MatchType → Type 0 = λ (m, t). P m × Awaits (some m) t script in
      let unsol : Always Q (typed unsol_match (f us)) =
        Always-typed Q unsol_match (f us) (Always-with P _ (f us) (finds us short) (λ m. tt)) in
      elim (served_or_bare size script it rs as' h) [
        | inl (e, r, a) ↦
            Always-or_else Q _ _
              (Always-typed Q response_match (f rs) (Always-with P _ (f rs) (finds rs r) (λ m. e)))
              (Always-or_else Q _ _
                (Always-typed Q abort_match (f as')
                  (Always-with P _ (f as') (finds as' a) (λ m. e)))
                unsol)
        | inr (r, a) ↦ rw (r, a, nothing) unsol
      ]

find_empty-Always : (ms : List Match) → Always (λ m. Unit {0}) (find_empty ms)
find_empty-Always [] = tt
find_empty-Always (m ∷ ms) =
    Always-if _ (length m.match == 0) _ _ (λ t. tt) (λ f. find_empty-Always ms)

module _ (c : Chat) (v : IsServed c) where
  pub find_match-Always :
      Always
        (λ (m, t).
          (IsShort c.receive_buf_size m
            × (length m.match ≡ length (take c.receive_buf_len c.receive_buf)))
          × Awaits (some m) t c.script)
        (find_match c)
  unfolding find_match
  find_match-Always =
      let bs = take c.receive_buf_len c.receive_buf in
      search_lists c.receive_buf_size _ (λ ms. find_in ms bs) refl
        (find_in-IsShort c.receive_buf_size bs) c.script c.script_chat_it c.response_matches
        c.abort_matches c.unsol_matches v.serves v.fitted.short

  pub find_catch_all_match-Always :
      Always (λ (m, t). Unit {0} × Awaits (some m) t c.script) (find_catch_all_match c)
  unfolding find_catch_all_match
  find_catch_all_match-Always =
      search_lists c.receive_buf_size (λ m. Unit {0}) find_empty refl (λ ms h. find_empty-Always ms)
        c.script c.script_chat_it c.response_matches c.abort_matches c.unsol_matches v.serves
        v.fitted.short
