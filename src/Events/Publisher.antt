-- ===== src/Events/Publisher.antt =====
-- src/events/PlaybackEventPublisher.cpp. A callback is what it does to the world of the subscribers;
-- `none` is an empty `std::function`. Identifiers are counted in an `int`, which is taken not to
-- overflow.
use musi_tui.Base.{
  ℕ, suc, ◌<◌, ◌≤◌, ◌≡◌, refl, ap, ◌∙◌, append-nil, ◌==◌, ==_refl, List, [], ◌∷◌, ◌++◌, Option,
  none, some, if◌then◌else◌, All, arith,
}

module _ (Event W : Type 0) where
  abbrev pub EventCallback : Type 0
  EventCallback = Option (Event → W → W)

  pub record Subscription : Type 0 where
    pub id : ℕ
    pub callback : EventCallback

  pub record PlaybackEventPublisher : Type 0 where
    pub subscribers : List Subscription
    pub next_id : ℕ

  unfoldable pub init : PlaybackEventPublisher
  init = record { subscribers = []; next_id = 0 }

  -- The new publisher, and the identifier of the subscription.
  unfoldable pub subscribe : EventCallback → PlaybackEventPublisher → PlaybackEventPublisher × ℕ
  subscribe callback p = (
    record p {
      subscribers = p.subscribers ++ record { id = p.next_id; callback = callback } ∷ [];
      next_id = suc p.next_id;
    },
    p.next_id,
  )

  unfoldable pub remove_id : ℕ → List Subscription → List Subscription
  remove_id id [] = []
  remove_id id (s ∷ subscribers) =
      let rest = remove_id id subscribers in if s.id == id then rest else s ∷ rest

  unfoldable pub unsubscribe : ℕ → PlaybackEventPublisher → PlaybackEventPublisher
  unfolding remove_id
  unsubscribe id p = record p { subscribers = remove_id id p.subscribers }

  abbrev pub call : EventCallback → Event → W → W
  call none event w = w
  call (some f) event w = f event w

  unfoldable pub tell : List Subscription → Event → W → W
  tell [] event w = w
  tell (s ∷ subscribers) event w = tell subscribers event (call s.callback event w)

  unfoldable pub publish : PlaybackEventPublisher → Event → W → W
  unfolding tell
  publish p event w = tell p.subscribers event w

  -- Identifiers are those that have been given out.
  abbrev pub Given : ℕ → Subscription → Type 0
  Given bound s = s.id < bound

  remove_id_fresh :
      (bound id : ℕ) (subscribers : List Subscription)
      → All (Given bound) subscribers
      → bound ≤ id
      → remove_id id subscribers ≡ subscribers
  unfolding remove_id
  remove_id_fresh bound id [] given fresh = refl
  remove_id_fresh bound id (s ∷ subscribers) (g, given) fresh =
      ground (arith, remove_id_fresh bound id subscribers given fresh)

  remove_id-append :
      (id : ℕ) (xs ys : List Subscription)
      → remove_id id (xs ++ ys) ≡ remove_id id xs ++ remove_id id ys
  unfolding remove_id
  remove_id-append id [] ys = refl
  remove_id-append id (s ∷ xs) ys = ground (arith, remove_id-append id xs ys)

  -- A subscription that is taken back leaves the others, in their order.
  pub unsubscribe-subscribe :
      (callback : EventCallback) (p : PlaybackEventPublisher)
      → All (Given p.next_id) p.subscribers
      → let (q, id) = subscribe callback p in (unsubscribe id q).subscribers ≡ p.subscribers
  unfolding subscribe unsubscribe
  unsubscribe-subscribe callback p given =
      let added : Subscription = record { id = p.next_id; callback = callback } in
      remove_id-append p.next_id p.subscribers (added ∷ [])
      ∙ ap (λ t. t ++ remove_id p.next_id (added ∷ []))
          (remove_id_fresh p.next_id p.next_id p.subscribers given (omega arith))
      ∙ rw ==_refl (append-nil p.subscribers)

  -- A subscriber is told after those who came before.
  pub publish-subscribe :
      (callback : EventCallback) (p : PlaybackEventPublisher) (event : Event) (w : W)
      → publish (subscribe callback p).0 event w ≡ call callback event (publish p event w)
  unfolding subscribe publish
  publish-subscribe callback p event w = in_turn p.subscribers w
    where
      in_turn :
          (subscribers : List Subscription) (w : W)
          → tell (subscribers ++ record { id = p.next_id; callback = callback } ∷ []) event w
            ≡ call callback event (tell subscribers event w)
      in_turn [] w = refl
      in_turn (s ∷ subscribers) w = in_turn subscribers (call s.callback event w)
