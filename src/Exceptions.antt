-- ===== src/Exceptions.antt =====
-- The exceptions that the program tells apart: its own of grizzly/exceptions.py, those of locust and
-- gevent that it catches by name, and Python's built-in ones. All other classes are `other`.
use grizzly.Common.{ℕ, ◌+◌, Bool, ◌=ℕ◌}

pub data Exception : Type 0 where
  stop_user stop_scenario restart_scenario response_handler_error : Exception
  reschedule_task reschedule_task_immediately greenlet_exit : Exception
  interrupt_task_set : Bool → Exception
  transformer_error value_error index_error key_error attribute_error : Exception
  type_error runtime_error overflow_error not_implemented_error assertion_error : Exception
  other : ℕ → Exception

-- A number for each class.
abbrev class_of : Exception → ℕ
class_of stop_user = 0
class_of stop_scenario = 1
class_of restart_scenario = 2
class_of response_handler_error = 3
class_of reschedule_task = 4
class_of reschedule_task_immediately = 5
class_of greenlet_exit = 6
class_of (interrupt_task_set reschedule) = 7
class_of transformer_error = 8
class_of value_error = 9
class_of index_error = 10
class_of key_error = 11
class_of attribute_error = 12
class_of type_error = 13
class_of runtime_error = 14
class_of overflow_error = 15
class_of not_implemented_error = 16
class_of assertion_error = 17
class_of (other n) = 18 + n

-- `isinstance(e, failure)`, for a class `failure` without subclasses among these
abbrev pub is_instance : Exception → Exception → Bool
is_instance e failure = class_of e =ℕ class_of failure
