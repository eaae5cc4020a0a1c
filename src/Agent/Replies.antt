-- ===== src/Agent/Replies.antt =====
-- Which replies of a worker internal/agent/client.go takes for success.
use tidefly_plane.Prelude.{
  ℕ, String, true, Option, none, some, Result, ok, err, ◌>>=◌, ◌≡◌, ◌↔◌, refl, ap, inl, inr,
  Bool-cases, subst, ◌∙◌, arith,
}
use tidefly_plane.Agent.Messages.{
  DeployResult, Reply, empty, container_list, metrics, deploy_result, heal_result, scale_result,
}
use tidefly_plane.Agent.Commands.{Deployment, Command, PlaneMessage}
use tidefly_plane.Agent.Conn.{SendError}
use tidefly_plane.Agent.Registry.{Registry, get_conn}
use tidefly_plane.Agent.Client.{
  ClientError, client_conn, connected_at, sent_over, deployed_of, healed_of, deploy, send_heal,
}

-- A command over a connection, as all of them are.
abbrev over {ℓ} :
    {A : Type ℓ}
    → Option ℕ
    → (ℕ → Result SendError Reply)
    → (Reply → Result ClientError A)
    → Result ClientError A
over o s f = connected_at o >>= (λ k. sent_over (s k)) >>= f

-- The worker is connected, its reply came, and it passed the check.
abbrev pub Replied {ℓ} :
    {A : Type ℓ}
    → Option ℕ
    → (ℕ → Result SendError Reply)
    → (Reply → Result ClientError A)
    → A
    → Type ℓ
Replied o s f a = (k : ℕ) × (r : Reply) × (o ≡ some k) × (s k ≡ ok r) × (f r ≡ ok a)

checked {ℓ} :
    {A : Type ℓ} (k : ℕ) (s : ℕ → Result SendError Reply) (f : Reply → Result ClientError A) {a : A}
    (reply : Result SendError Reply)
    → s k ≡ reply
    → sent_over reply >>= f ≡ ok a
    → Replied (some k) s f a
checked k s f (ok r) came h = (k, r, refl, came, h)
checked k s f (err e) came h = cc

over→Replied {ℓ} :
    {A : Type ℓ} (o : Option ℕ) (s : ℕ → Result SendError Reply) (f : Reply → Result ClientError A)
    {a : A}
    → over o s f ≡ ok a
    → Replied o s f a
over→Replied none s f h = cc
over→Replied (some k) s f h = checked k s f (s k) refl h

Replied→over {ℓ} :
    {A : Type ℓ} (o : Option ℕ) (s : ℕ → Result SendError Reply) (f : Reply → Result ClientError A)
    {a : A}
    → Replied o s f a
    → over o s f ≡ ok a
Replied→over o s f (k, r, there, came, good) =
    ap (λ (x : Option ℕ). over x s f) there ∙ (ap (λ x. sent_over x >>= f) came ∙ good)

deployed_of-ok :
    (r : Reply) {d : DeployResult}
    → deployed_of r ≡ ok d
    → (r ≡ deploy_result d) × (d.success ≡ true)
unfolding deployed_of
deployed_of-ok (deploy_result x) {d} h = elim (Bool-cases x.success) [
  | inl good ↦
      let same : x ≡ d = cc (rw good at h) in
      (ap deploy_result same, subst (λ (y : DeployResult). y.success ≡ true) same good)
  | inr bad ↦ cc (rw bad at h)
]
deployed_of-ok empty h = cc
deployed_of-ok (container_list _) h = cc
deployed_of-ok (metrics _) h = cc
deployed_of-ok (heal_result _) h = cc
deployed_of-ok (scale_result _) h = cc

-- Any reply but a healing result that says failure.
abbrev pub Unfailed : Reply → Type 0
Unfailed (heal_result d) = d.success ≡ true
Unfailed empty = Unit
Unfailed (container_list cs) = Unit
Unfailed (metrics m) = Unit
Unfailed (deploy_result d) = Unit
Unfailed (scale_result s) = Unit

healed_of-ok : (r : Reply) → (healed_of r ≡ ok tt) ↔ Unfailed r
unfolding healed_of
healed_of-ok (heal_result x) = (λ h. ground arith, λ good. rw good refl)
healed_of-ok empty = (λ h. tt, λ good. refl)
healed_of-ok (container_list _) = (λ h. tt, λ good. refl)
healed_of-ok (metrics _) = (λ h. tt, λ good. refl)
healed_of-ok (deploy_result _) = (λ h. tt, λ good. refl)
healed_of-ok (scale_result _) = (λ h. tt, λ good. refl)

module _ (send : ℕ → PlaneMessage → Result SendError Reply) (r : Registry)
    (id worker_id : String) where
  -- What the worker's connection answers to a command.
  abbrev pub Answered : Command → Reply → Type 0
  Answered command reply =
      (k : ℕ) × (get_conn worker_id r ≡ some k)
      × (send k (record { command_id = id; worker_id = worker_id; payload = command }) ≡ ok reply)

  abbrev asked : Command → ℕ → Result SendError Reply
  asked command k = send k (record { command_id = id; worker_id = worker_id; payload = command })

  -- `Deploy` succeeds exactly where the worker is connected and answers in time with a deployment result
  -- that says success, which is then what the caller gets.
  pub deploy_iff :
      (request : Deployment) (d : DeployResult)
      → (deploy send r id worker_id request ≡ ok d)
        ↔ (Answered (Command.deploy_command request) (deploy_result d) × (d.success ≡ true))
  unfolding deploy client_conn deployed_of
  deploy_iff request d = (
    λ h.
        let found =
          over→Replied (get_conn worker_id r) (asked (Command.deploy_command request)) deployed_of
            h in
        let good = deployed_of-ok found.1 found.4 in
        ((found.0, found.2, found.3 ∙ ap ok good.0), good.1),
    λ h.
        Replied→over (get_conn worker_id r) (asked (Command.deploy_command request)) deployed_of
          (h.0.0, deploy_result d, h.0.1, h.0.2, rw h.1 refl),
  )

  -- `SendHeal` succeeds exactly where the worker is connected and gives any answer in time but a healing
  -- result that says failure: an acceptance of the command or a result of another kind counts as success.
  pub send_heal_iff :
      (service reason : String) (spec : Option Deployment)
      → (send_heal send r id worker_id service reason spec ≡ ok tt) ↔ (
          (reply : Reply) × Answered (Command.heal_command service reason spec) reply
          × Unfailed reply)
  unfolding send_heal client_conn
  send_heal_iff service reason spec = (
    λ h.
        let found =
          over→Replied (get_conn worker_id r) (asked (Command.heal_command service reason spec))
            healed_of h in
        (found.1, (found.0, found.2, found.3), (healed_of-ok found.1).0 found.4),
    λ h.
        Replied→over (get_conn worker_id r) (asked (Command.heal_command service reason spec))
          healed_of (h.1.0, h.0, h.1.1, h.1.2, (healed_of-ok h.0).1 h.2),
  )
