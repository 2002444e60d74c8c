-- ===== src/Orchestrator/Request.antt =====
-- What the executor tells the dispatcher: `executorTenant`, `serviceExtensions`, `relatedTaskIDs`
-- and the requests made of them.
pub mod Tenancy
use mathlib.Core.Option.{get_or}
use a2a_red_panda_server_con.Prelude.{
  Text, str, Bool, Option, none, some, List, [], ◌∷◌, length, ◌==◌, lookup, Assoc, if◌then◌else◌,
}
use a2a_red_panda_server_con.Auth.Interceptor.{User, Attribute, text_attribute, texts_attribute}
use a2a_red_panda_server_con.Orchestrator.{Message}

-- `a2asrv.ExecutorContext`, as far as it is read: `stored` says whether there is a stored task,
-- `extensions` what the service parameters hold under the extensions' name, if there are
-- parameters and they hold anything there; a related task that is nil is `none`.
pub record ExecutorContext (P Metadata : Type 0) : Type 0 where
  pub task_id : Text
  pub context_id : Text
  pub tenant : Text
  pub message : Option (Message P)
  pub metadata : Metadata
  pub user : Option User
  pub extensions : Option (List Text)
  pub related_tasks : List (Option Text)
  pub stored : Bool

pub record DispatchRequest (P Metadata : Type 0) : Type 0 where
  pub task_id : Text
  pub context_id : Text
  pub tenant : Text
  pub message : Message P
  pub metadata : Metadata
  pub user : Option User
  pub extensions : List Text
  pub related_task_ids : List Text

pub record CancelRequest : Type 0 where
  pub task_id : Text
  pub tenant : Text
  pub user : Option User
  pub extensions : List Text

-- `attributes["tenant"].(string)`, or the empty text.
unfoldable pub user_tenant : Option User → Text
user_tenant none = []
user_tenant (some user) = elim (lookup (str "tenant") user.attributes) [
  | none ↦ []
  | some attribute ↦ elim attribute [ text_attribute t ↦ t | texts_attribute ts ↦ [] ]
]

unfoldable pub related_task_ids : List (Option Text) → List Text
related_task_ids [] = []
related_task_ids (none ∷ tasks) = related_task_ids tasks
related_task_ids (some id ∷ tasks) = id ∷ related_task_ids tasks

module _ {P Metadata : Type 0} where
  unfoldable pub executor_tenant : ExecutorContext P Metadata → Text
  executor_tenant context =
      if length context.tenant == 0 then user_tenant context.user else context.tenant

  -- `serviceExtensions`
  unfoldable pub service_extensions : ExecutorContext P Metadata → List Text
  service_extensions context = get_or context.extensions []

  unfoldable pub dispatch_request :
      ExecutorContext P Metadata → Message P → DispatchRequest P Metadata
  dispatch_request context message = record {
    task_id = context.task_id;
    context_id = context.context_id;
    tenant = executor_tenant context;
    message = message;
    metadata = context.metadata;
    user = context.user;
    extensions = service_extensions context;
    related_task_ids = related_task_ids context.related_tasks;
  }

  unfoldable pub cancel_request : ExecutorContext P Metadata → CancelRequest
  cancel_request context = record {
    task_id = context.task_id;
    tenant = executor_tenant context;
    user = context.user;
    extensions = service_extensions context;
  }
