-- ===== src/Plugin/Starts.antt =====
-- The beginning of a command: the logger, the arguments and the pod's namespace.
use cni_plugins.Base.{◌≡◌, some}
use cni_plugins.Base.Text.{Text}
use cni_plugins.Base.Int.{ℤ}
use cni_plugins.Types.{LogOptions}
use cni_plugins.Logging.{set_log_options}
use cni_plugins.World.{call, get_ns, Trace, load_args, init_file_logger, host, Env}
use cni_plugins.World.Succeeds.{
  Succeeds, Any, AnswersAll, >>=-Succeeds, wrap-Succeeds, deref-Succeeds, done-Succeeds,
}
use cni_plugins.Plugin.{CmdArgs, load_k8s_args}

-- The calls that a command begins with are answered: the logger is started, the arguments are
-- loaded, and the pod's namespace is opened.
pub record Starts (I : Trace → Type 0) (env : Env) : Type 0 where
  pub logs :
      (level path : Text) (size age count : ℤ)
      → Succeeds I host Any (call env (init_file_logger level path size age count))
  pub loads : (args : Text) → Succeeds I host Any (call env (load_args args))
  pub opens : (path : Text) → Succeeds I host Any (call env (get_ns path))

module _ {I : Trace → Type 0} (env : Env) where
  pub AnswersAll-Starts : AnswersAll I env → Starts I env
  AnswersAll-Starts answers = record {
    logs = λ level path size age count.
        done-Succeeds env answers host (init_file_logger level path size age count);
    loads = λ args. done-Succeeds env answers host (load_args args);
    opens = λ path. done-Succeeds env answers host (get_ns path);
  }

  pub load_k8s_args-Succeeds :
      Starts I env → (args : CmdArgs) → Succeeds I host Any (load_k8s_args env args)
  unfolding load_k8s_args
  load_k8s_args-Succeeds starts args = wrap-Succeeds host Any _ _ (starts.loads _)

  pub set_log_options-Succeeds :
      Starts I env
      → (o : LogOptions) (size age count : ℤ) → o.log_file_max_size ≡ some size
      → o.log_file_max_age ≡ some age
      → o.log_file_max_count ≡ some count
      → Succeeds I host Any (set_log_options env o)
  unfolding set_log_options
  set_log_options-Succeeds starts o size age count e f g =
      >>=-Succeeds host Any Any _ _ (deref-Succeeds host Any _ size e tt) λ size _.
        >>=-Succeeds host Any Any _ _ (deref-Succeeds host Any _ age f tt) λ age _.
          >>=-Succeeds host Any Any _ _ (deref-Succeeds host Any _ count g tt)
            λ count _. starts.logs _ _ size age count
