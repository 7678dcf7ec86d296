-- ===== src/Workload/Property.antt =====
-- The constants of core_workload.cc: the names of the properties, and their default values.
use ycsb.Prelude.Text.{Bytes, str}

abbrev pub tablename_property : Bytes
tablename_property = str "table"

abbrev pub tablename_default : Bytes
tablename_default = str "usertable"

abbrev pub field_count_property : Bytes
field_count_property = str "fieldcount"

abbrev pub field_count_default : Bytes
field_count_default = str "10"

abbrev pub field_length_distribution_property : Bytes
field_length_distribution_property = str "field_len_dist"

abbrev pub field_length_distribution_default : Bytes
field_length_distribution_default = str "constant"

abbrev pub field_length_property : Bytes
field_length_property = str "fieldlength"

abbrev pub field_length_default : Bytes
field_length_default = str "100"

abbrev pub read_all_fields_property : Bytes
read_all_fields_property = str "readallfields"

abbrev pub read_all_fields_default : Bytes
read_all_fields_default = str "true"

abbrev pub write_all_fields_property : Bytes
write_all_fields_property = str "writeallfields"

abbrev pub write_all_fields_default : Bytes
write_all_fields_default = str "false"

abbrev pub read_proportion_property : Bytes
read_proportion_property = str "readproportion"

abbrev pub read_proportion_default : Bytes
read_proportion_default = str "0.95"

abbrev pub update_proportion_property : Bytes
update_proportion_property = str "updateproportion"

abbrev pub update_proportion_default : Bytes
update_proportion_default = str "0.05"

abbrev pub delete_proportion_property : Bytes
delete_proportion_property = str "deleteproportion"

abbrev pub delete_proportion_default : Bytes
delete_proportion_default = str "0.0"

abbrev pub insert_proportion_property : Bytes
insert_proportion_property = str "insertproportion"

abbrev pub insert_proportion_default : Bytes
insert_proportion_default = str "0.0"

abbrev pub scan_proportion_property : Bytes
scan_proportion_property = str "scanproportion"

abbrev pub scan_proportion_default : Bytes
scan_proportion_default = str "0.0"

abbrev pub readmodifywrite_proportion_property : Bytes
readmodifywrite_proportion_property = str "readmodifywriteproportion"

abbrev pub readmodifywrite_proportion_default : Bytes
readmodifywrite_proportion_default = str "0.0"

abbrev pub request_distribution_property : Bytes
request_distribution_property = str "requestdistribution"

abbrev pub request_distribution_default : Bytes
request_distribution_default = str "uniform"

abbrev pub zero_padding_property : Bytes
zero_padding_property = str "zeropadding"

abbrev pub zero_padding_default : Bytes
zero_padding_default = str "1"

abbrev pub max_scan_length_property : Bytes
max_scan_length_property = str "maxscanlength"

abbrev pub max_scan_length_default : Bytes
max_scan_length_default = str "1000"

abbrev pub scan_length_distribution_property : Bytes
scan_length_distribution_property = str "scanlengthdistribution"

abbrev pub scan_length_distribution_default : Bytes
scan_length_distribution_default = str "uniform"

abbrev pub insert_order_property : Bytes
insert_order_property = str "insertorder"

abbrev pub insert_order_default : Bytes
insert_order_default = str "hashed"

abbrev pub insert_start_property : Bytes
insert_start_property = str "insertstart"

abbrev pub insert_start_default : Bytes
insert_start_default = str "0"

abbrev pub record_count_property : Bytes
record_count_property = str "recordcount"

abbrev pub operation_count_property : Bytes
operation_count_property = str "operationcount"
