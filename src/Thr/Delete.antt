-- ===== src/Thr/Delete.antt =====
-- A thread that OSA_thrCreate of osa/src/osa_thr.c makes and OSA_thrDelete ends.
use osa_base.Base.{ℕ, ◌≡◌, ◌≢◌, ◌↔◌, ap, ◌∙◌, not, Bool-cases, inl, inr, ◌==◌, sok, arith}
use osa_base.Thr.{
  Pthreads, came_back, undefined, ThrHndl, detach, attr_of, thr_create, thr_join, thr_delete,
}

module _ {Sys : Type 0} (p : Pthreads Sys) where
  -- Where the attributes and the thread can be made, OSA_thrCreate succeeds, and OSA_thrDelete of the
  -- handle that it leaves has no meaning exactly if the priority was `OSA_DETACH`, which is 0: such a
  -- thread is detached, and it is joined.
  pub thr_create-delete :
      (pri stack_size : ℕ) (h : ThrHndl) (s : Sys)
      → (p.attr_init s).0 ≡ sok
      → (p.pthread_create (attr_of p pri stack_size) ((p.attr_init s).1)).0 ≡ sok
      → (h' : ThrHndl) × (s' : Sys) × (thr_create p pri stack_size h s ≡ came_back (sok, h', s'))
        × ((thr_delete p h' s' ≡ undefined) ↔ (pri ≡ detach))
  unfolding thr_create thr_delete thr_join
  thr_create-delete pri stack_size h s init made =
      let a = attr_of p pri stack_size in
      let s₁ = (p.attr_init s).1 in
      let t = (p.pthread_create a s₁).1 in
      let s₂ = (p.pthread_create a s₁).2 in
      let s₃ = p.attr_destroy s₂ in
      let s₄ = (p.pthread_cancel t s₃).1 in
      let joins : p.joinable t s₄ ≡ not (detach == pri) =
        p.cancel_joinable t t s₃ ∙ p.destroy_joinable t s₂ ∙ p.create_joinable a s₁ made in
      (
        record { hndl = t },
        s₃,
        rw (init, made),
        elim (Bool-cases (detach == pri)) [
          | inl is ↦
              let zero_pri : pri ≡ detach = ground arith in
              (λ u. zero_pri, λ e. p.join_undefined t s₄ (joins ∙ ap not is))
          | inr is_not ↦
              let other : pri ≢ detach = ground arith in
              (λ u. absurd (p.join_defined t s₄ (joins ∙ ap not is_not) u), λ e. absurd (other e))
        ],
      )
