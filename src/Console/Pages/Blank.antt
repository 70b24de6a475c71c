-- ===== src/Console/Pages/Blank.antt =====
-- What a page shows, with every text that a client, a caller or a user chose made empty.
use Prim.Native.String.{String, ◌++◌ as str_append}
use text.Mathlib.TextLemmas.{cons-append}
use ruchat.Prelude.{arith, ◌≡◌, refl, sym, ◌∙◌, false, Option, none, some, []}
use ruchat.Prelude.Text.{is_empty, join}
use ruchat.Protocol.Domain.{
  NodeSnapshot, TaskSnapshot, ExecutionResult, SessionEvent, CommandDescriptor,
}
use ruchat.Server.Api.{map_items}
use ruchat.Console.Pages.Texts.{summary_of, task_origin_summary, task_cancel_summary}

abbrev blank_text : String → String
blank_text text = ""

-- A text that is there stays there.
abbrev pub blank_option : Option String → Option String
blank_option none = none
blank_option (some text) = some ""

abbrev pub blank_command : CommandDescriptor → CommandDescriptor
blank_command command = record command { name = ""; description = ""; default_args = [] }

abbrev pub blank_node : NodeSnapshot → NodeSnapshot
blank_node node = record node {
  node_id = "";
  hostname = "";
  platform = "";
  session_protocol_version = blank_option node.session_protocol_version;
  session_transport_stack = blank_option node.session_transport_stack;
  session_capabilities = map_items blank_text node.session_capabilities;
  commands = map_items blank_command node.commands;
}

abbrev pub blank_event : SessionEvent → SessionEvent
blank_event event = record event { node_id = ""; message = "" }

abbrev pub blank_result : ExecutionResult → ExecutionResult
blank_result result = record result { stdout = ""; stderr = ""; error = blank_option result.error }

abbrev pub blank_found : Option ExecutionResult → Option ExecutionResult
blank_found none = none
blank_found (some result) = some (blank_result result)

abbrev pub blank_task : TaskSnapshot → TaskSnapshot
blank_task task = record task {
  node_id = "";
  command_name = "";
  args = [];
  created_via = blank_option task.created_via;
  created_by = blank_option task.created_by;
  retry_reason = blank_option task.retry_reason;
  cancel_reason = blank_option task.cancel_reason;
  canceled_via = blank_option task.canceled_via;
  canceled_by = blank_option task.canceled_by;
  result = blank_found task.result;
}

-- A summary is empty or not whatever the texts in it are.
starts_full : (text rest : String) → is_empty text ≡ false → is_empty (str_append text rest) ≡ false
starts_full String.[] rest e = absurd (grind arith)
starts_full (String.◌∷◌ c s) rest e = rw (cons-append c s rest) refl

pub summary-blank :
    (verb : String) (via actor : Option String)
    → is_empty verb ≡ false
    → is_empty (summary_of verb via actor)
      ≡ is_empty (summary_of verb (blank_option via) (blank_option actor))
unfolding summary_of join
summary-blank verb (some via) (some actor) e = starts_full verb _ e ∙ sym (starts_full verb _ e)
summary-blank verb (some via) none e = starts_full verb _ e ∙ sym (starts_full verb _ e)
summary-blank verb none (some actor) e = starts_full verb _ e ∙ sym (starts_full verb _ e)
summary-blank verb none none e = refl

pub origin-blank :
    (task : TaskSnapshot)
    → is_empty (task_origin_summary task) ≡ is_empty (task_origin_summary (blank_task task))
unfolding task_origin_summary
origin-blank task = summary-blank "created" task.created_via task.created_by refl

pub cancel-blank :
    (task : TaskSnapshot)
    → is_empty (task_cancel_summary task) ≡ is_empty (task_cancel_summary (blank_task task))
unfolding task_cancel_summary
cancel-blank task = summary-blank "canceled" task.canceled_via task.canceled_by refl
