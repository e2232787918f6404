-- ===== src/Router/Failover/Rounds.antt =====
-- The failover loop of the chat handler, by rounds: what holds before every attempt and what of the
-- outcome.
use melis.Common.{
  ℕ, zero, suc, ◌≡◌, refl, inl, inr, String, true, false, Option, List, [], ◌∷◌, ◌++◌, is_empty,
  Bool-cases,
}
use melis.Error.{GatewayError, Result, ok, err}
use melis.RouteConfig.{WeightedProvider}
use melis.Balancer.{LoadBalancer, available}
use melis.Router.Failover.{
  Attempt, finished, passed_over, exhausted, newer, Outcome, on_selected, on_attempt, failover,
}

module _ {W T : Type 0} (balancer : LoadBalancer W) (attempt : W → WeightedProvider → W × Attempt T)
    (providers : List WeightedProvider) (Before : ℕ → List String → W → Type 0)
    (After : Outcome W T → Type 0) where
  -- What the rounds keep.
  pub record Keeps : Type 0 where
    pub out_of_attempts :
        (excluded : List String) (e : GatewayError) (w : W)
        → Before 0 excluded w
        → After (w, excluded, err e)
    pub none_left :
        (k : ℕ) (excluded : List String) (e : GatewayError) (w : W)
        → Before (suc k) excluded w
        → is_empty (available excluded providers) ≡ true
        → After (w, excluded, err e)
    pub unselected :
        (k : ℕ) (excluded : List String) (e : GatewayError) (w w' : W)
        → Before (suc k) excluded w
        → is_empty (available excluded providers) ≡ false
        → balancer.select w (available excluded providers) ≡ (w', err e)
        → After (w', excluded, err e)
    pub ended :
        (k : ℕ) (excluded : List String) (w w' w'' : W) (p : WeightedProvider) (r : Result T)
        → Before (suc k) excluded w
        → balancer.select w (available excluded providers) ≡ (w', ok p)
        → attempt w' p ≡ (w'', finished r)
        → After (w'', excluded, r)
    pub went_on :
        (k : ℕ) (excluded : List String) (w w' w'' : W) (p : WeightedProvider)
        (e : Option GatewayError)
        → Before (suc k) excluded w
        → balancer.select w (available excluded providers) ≡ (w', ok p)
        → attempt w' p ≡ (w'', passed_over e)
        → Before k (excluded ++ p.name ∷ []) w''

  module _ (keeps : Keeps) where
    attempted :
        (k : ℕ) (excluded : List String) (w w' : W) (p : WeightedProvider) (a : W × Attempt T)
        (next : W → Option GatewayError → Outcome W T)
        → Before (suc k) excluded w
        → balancer.select w (available excluded providers) ≡ (w', ok p)
        → attempt w' p ≡ a
        → ((w'' : W) (e : Option GatewayError)
            → Before k (excluded ++ p.name ∷ []) w''
            → After (next w'' e))
        → After (on_attempt excluded a next)
    attempted k excluded w w' p (w'', finished r) next b s t later =
        keeps.ended k excluded w w' w'' p r b s t
    attempted k excluded w w' p (w'', passed_over e) next b s t later =
        later w'' e (keeps.went_on k excluded w w' w'' p e b s t)

    selected :
        (k : ℕ) (excluded : List String) (w : W) (a : W × Result WeightedProvider)
        (next : W → WeightedProvider → W → Option GatewayError → Outcome W T)
        → Before (suc k) excluded w
        → is_empty (available excluded providers) ≡ false
        → balancer.select w (available excluded providers) ≡ a
        → ((w' : W) (p : WeightedProvider) (w'' : W) (e : Option GatewayError)
            → Before k (excluded ++ p.name ∷ []) w''
            → After (next w' p w'' e))
        → After (on_selected excluded a (λ w' p. on_attempt excluded (attempt w' p) (next w' p)))
    selected k excluded w (w', err e) next b some_left s later =
        keeps.unselected k excluded e w w' b some_left s
    selected k excluded w (w', ok p) next b some_left s later =
        attempted k excluded w w' p (attempt w' p) (next w' p) b s refl (later w' p)

    pub failover_keeps :
        (k : ℕ) (excluded : List String) (last_error : Option GatewayError) (w : W)
        → Before k excluded w
        → After (failover balancer attempt providers k excluded last_error w)
    unfolding failover
    failover_keeps zero excluded last_error w b =
        keeps.out_of_attempts excluded (exhausted last_error) w b
    failover_keeps (suc k) excluded last_error w b =
        elim (Bool-cases (is_empty (available excluded providers))) [
          | inl nothing ↦ rw nothing (keeps.none_left k excluded (exhausted last_error) w b nothing)
          | inr some_left ↦ rw some_left (
              selected k excluded w (balancer.select w (available excluded providers)) _ b some_left
                refl
                (λ w' p w'' e b'.
                  failover_keeps k (excluded ++ p.name ∷ []) (newer e last_error) w'' b'))
        ]
