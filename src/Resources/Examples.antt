-- ===== src/Resources/Examples.antt =====
-- resources/src/lib.rs: the theorems at concrete budgets.
use panda_gen.Prelude.{◌≡◌, refl, none, some}
use panda_gen.Resources.{
  ResourceBudget, ResourceUsage, exceeds, is_subset_of, consume_cpu_ticks, consume_message,
}
use panda_gen.Resources.Inheritance.{exceeds-is_subset_of}

abbrev ten : ResourceBudget
ten = record {
  cpu_ticks = some 10;
  memory_units = some 10;
  message_count = none;
  packet_count = none;
  storage_ops = none;
  pipeline_stages = none;
}

abbrev five : ResourceBudget
five = record ten { cpu_ticks = some 5; message_count = some 1 }

abbrev used : ResourceUsage
used = record {
  cpu_ticks = 4;
  memory_units = 12;
  message_count = 1;
  packet_count = 0;
  storage_ops = 0;
  pipeline_stages = 0;
}

abbrev small : ResourceUsage
small = record used { memory_units = 3 }

exceeds-is_subset_of_example : exceeds small ten ≡ none
unfolding exceeds is_subset_of
exceeds-is_subset_of_example =
    exceeds-is_subset_of five ten small refl
      (record { cpu = tt; memory = tt; messages = tt; packets = tt; storage = tt; stages = tt })
      refl

abbrev grown : ResourceUsage
grown = consume_message (consume_cpu_ticks used 20)
